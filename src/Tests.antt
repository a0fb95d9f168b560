-- ===== src/Tests.antt =====
-- Concrete runs: each theorem of the development at values where its hypotheses hold.
mod Data
mod Ept
mod Npt
mod Regions
mod Seccomp
mod Tables
mod Vmx
mod Svm
