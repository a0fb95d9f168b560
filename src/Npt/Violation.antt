-- ===== src/Npt/Violation.antt =====
-- The whole fault of npt.c, `svm_do_npt_violation`, with no other thread between: what it gives for each answer of the host.
use slimvm.Vm.{Vm}
use slimvm.Npt.Answered.{Answered}
