-- ===== src/Tests/Wire.antt =====
-- The line for a refused image, as it is sent.
use qcom_ipq_aux_loader.Base.{◌-◌, ◌^◌, refl, [], ◌∷◌, codes, false, arith}
use qcom_ipq_aux_loader.Printf.Format.{word, with_returns}
use qcom_ipq_aux_loader.Printf.Reference.{digit_char, Template, ends, shows, decimal, format}
use qcom_ipq_aux_loader.Drivers.Uart.{blsp, uart, serial_printf}
use qcom_ipq_aux_loader.Drivers.Uart.Wire.{Transmits, serial_printf-Transmits}
use qcom_ipq_aux_loader.Tests.Machines.{console, device-Responds}

abbrev op_ret : Template
op_ret =
    shows (codes "Op ret = ") (record { left = false; zeros = false; digits = [] }) decimal
      (ends (codes "\n"))

serial_printf-Transmits_example :
    Transmits blsp 0x7af_0000
      (with_returns (codes "Op ret = -99\n"))
      console
      (serial_printf 2 (uart blsp 0x7af_0000) (format op_ret) (word (2 ^ 32 - 99) ∷ []) console)
unfolding digit_char
serial_printf-Transmits_example =
    serial_printf-Transmits blsp 0x7af_0000 2 op_ret (word (2 ^ 32 - 99) ∷ [])
      (codes "Op ret = -99\n") console device-Responds (ground arith) (omega arith, tt) refl
