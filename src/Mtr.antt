-- ===== src/Mtr.antt =====
-- What src/executors/mtr_executor.py answers: its hops have these four keys and `loss`. Where there is
-- no hostname it is the empty text here, since it is only asked whether there is one.
use traceroute_simulator.Prelude.{ℕ, String, List}

pub record MtrHop (F : Type 0) : Type 0 where
  pub hop : ℕ
  pub ip : String
  pub hostname : String
  pub rtt : F

-- `execute_and_filter`: all hops and those on Linux routers, or an exception.
pub data Mtr (F : Type 0) : Type 0 where
  answered : (all filtered : List (MtrHop F)) → Mtr F
  no_linux_routers failed : Mtr F

abbrev pub Executor : Type 0 → Type 0
Executor F = String → String → Mtr F
