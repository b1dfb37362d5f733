-- ===== src/Tests/Data.antt =====
-- Memory with given bytes, a machine over it, and a small device tree.
use qcom_ipq_aux_loader.Base.{
  ℕ, ◌+◌, ◌-◌, ◌/◌, ◌%◌, ◌^◌, false, List, [], ◌∷◌, ◌++◌, codes, get_or, ltb, ◌==◌, if◌then◌else◌,
}
use qcom_ipq_aux_loader.Machine.Memory.{Memory}
use qcom_ipq_aux_loader.Machine.Run.{Event, wrote, loaded, putc, mcr, jump, Machine}
use qcom_ipq_aux_loader.Drivers.Timer.{gpt_count_val}
use qcom_ipq_aux_loader.Drivers.Cpu.{ipq806x}
use qcom_ipq_aux_loader.Lzma.{Decoder}
use qcom_ipq_aux_loader.Loader.Given.{Build}

-- Bytes from address 4096 on, and 0 elsewhere.
abbrev pub bytes_at : List ℕ → Memory
bytes_at bytes a = if ltb a 4096 then 0 else get_or bytes (a - 4096) 0

abbrev pub be32 : ℕ → List ℕ
be32 n = n / 2 ^ 24 % 256 ∷ n / 2 ^ 16 % 256 ∷ n / 2 ^ 8 % 256 ∷ n % 256 ∷ []

-- How often the timer's counter has been read.
abbrev pub count_readings : List Event → ℕ
count_readings [] = 0
count_readings (loaded a v ∷ events) =
    if a == gpt_count_val then count_readings events + 1 else count_readings events
count_readings (wrote a v ∷ events) = count_readings events
count_readings (putc c ∷ events) = count_readings events
count_readings (mcr r v ∷ events) = count_readings events
count_readings (jump e p q r ∷ events) = count_readings events

-- Every register counts, one step for each three readings of the timer.
abbrev pub counting : List Event → ℕ → ℕ
counting events a = (count_readings events / 3 + 1) % 32000

abbrev pub machine : Memory → Machine
machine mem = record {
  device = counting;
  coprocessor = λ events r. 0;
  memory = mem;
  trace = [];
  control = 2 ^ 12 + 5;
  arch = 0;
  kernel_entry = 0;
  kernel_p0 = 0;
  kernel_p1 = 4200;
  kernel_p2 = 0;
  bi_dram_0_start = 0;
  bi_dram_0_size = 0;
  mdio_reg_base = 0;
}

-- A tree with the node `kernel@1`, which has the one property `load`.
abbrev pub blob : List ℕ
blob =
    be32 0xd00d_feed
    ++ be32 100
    ++ be32 40
    ++ be32 92
    ++ be32 0
    ++ be32 17
    ++ be32 16
    ++ be32 0
    ++ be32 5
    ++ be32 52
    ++ be32 1
    ++ be32 0
    ++ be32 1
    ++ codes "kernel@1"
    ++ be32 0
    ++ be32 3
    ++ be32 4
    ++ be32 0
    ++ be32 0x4220_8000
    ++ be32 2
    ++ be32 2
    ++ be32 9
    ++ codes "load"
    ++ be32 0

-- The tree of an image with a kernel and a device tree.
abbrev pub full : List ℕ
full =
    be32 0xd00d_feed
    ++ be32 232
    ++ be32 40
    ++ be32 192
    ++ be32 0
    ++ be32 17
    ++ be32 16
    ++ be32 0
    ++ be32 40
    ++ be32 152
    ++ be32 1
    ++ be32 0
    ++ be32 1
    ++ codes "kernel@1"
    ++ be32 0
    ++ be32 3
    ++ be32 2
    ++ be32 0
    ++ codes "k"
    ++ 0 ∷ 0 ∷ 0 ∷ []
    ++ be32 3
    ++ be32 4
    ++ be32 12
    ++ be32 256
    ++ be32 3
    ++ be32 4
    ++ be32 17
    ++ be32 512
    ++ be32 3
    ++ be32 4
    ++ be32 23
    ++ be32 0
    ++ be32 3
    ++ be32 5
    ++ be32 28
    ++ codes "lzma"
    ++ be32 0
    ++ be32 2
    ++ be32 1
    ++ codes "fdt@1"
    ++ 0 ∷ 0 ∷ 0 ∷ []
    ++ be32 3
    ++ be32 4
    ++ be32 23
    ++ be32 0x0102_0304
    ++ be32 2
    ++ be32 2
    ++ be32 9
    ++ codes "description"
    ++ 0 ∷ []
    ++ codes "load"
    ++ 0 ∷ []
    ++ codes "entry"
    ++ 0 ∷ []
    ++ codes "data"
    ++ 0 ∷ []
    ++ codes "compression"
    ++ 0 ∷ []

-- A tree whose first tag is a property of length -12.
abbrev pub trap : List ℕ
trap =
    be32 0xd00d_feed
    ++ be32 100
    ++ be32 40
    ++ be32 92
    ++ be32 0
    ++ be32 17
    ++ be32 16
    ++ be32 0
    ++ be32 0
    ++ be32 0
    ++ be32 3
    ++ be32 0xffff_fff4
    ++ be32 0

-- A legacy image with a body of three bytes, loaded to 8192 and entered at 8192.
abbrev pub legacy : List ℕ
legacy =
    be32 0x2705_1956
    ++ be32 0
    ++ be32 0
    ++ be32 3
    ++ be32 8192
    ++ be32 8192
    ++ be32 0
    ++ be32 0
    ++ be32 0
    ++ be32 0
    ++ be32 0
    ++ be32 0
    ++ be32 0
    ++ be32 0
    ++ be32 0
    ++ be32 0
    ++ 1 ∷ 2 ∷ 3 ∷ []

-- It fails, and leaves the memory as it was.
abbrev pub decoder : Decoder
decoder = record {
  properties = λ bytes. (0, record { lc = 3; lp = 0; pb = 2 });
  decode = λ properties mem probs stream size out out_size. record {
    result = 1;
    in_processed = 0;
    out_processed = 0;
    memory = mem;
  };
}

-- A board whose image takes `size` bytes.
abbrev pub board : ℕ → Build
board size = record {
  cpu = ipq806x;
  rb3011 = false;
  kernel_data_start = 4096;
  kernel_data_end = 4096 + size;
  workspace = 65536;
  page_table = 0x4400_0000;
  decoder = decoder;
  fuel = 5000;
}
