-- ===== src/Tests/Written.antt =====
-- A legacy kernel on a machine with two levels of data caches, switched on.
use qcom_ipq_aux_loader.Machine.Run.{Machine}
use qcom_ipq_aux_loader.Loader.WritesBack.{WritesBack}
use qcom_ipq_aux_loader.Tests.Data.{bytes_at, legacy}
use qcom_ipq_aux_loader.Tests.Drivers.{two_levels}

abbrev cached : Machine
cached = record two_levels { memory = bytes_at legacy }
