-- ===== src/Examples.antt =====
-- The programs under examples/: what they print, and what they do with the library.
pub mod Calculator
pub mod CalculatorClient
pub mod ErrorHandling
pub mod Retry
pub mod Users
pub mod BatchRequest
pub mod AsyncClient
use jsonrpc_for_cpp.Prelude.{String, List, ℕ}

-- A line of output: on `std::cout` or `std::cerr`.
pub data Line : Type 0 where
  out : String → Line
  err : String → Line

-- How a program ends: with the lines that it printed and its exit code, or in an exception that it
-- does not catch.
pub data Exit : Type 0 where
  exits : List Line → ℕ → Exit
  uncaught : Exit
