-- ===== src/Outside.antt =====
-- What the exits meet outside of the repository: commands, sockets, processes, threads, timers and
-- clocks. Each act is an `Effect` on a trace, newest first, and an answer is a function of the trace,
-- so that an arbitrary `Outside` stands for everything that may happen. Clocks count milliseconds.
use kui_local_multi_exit.Prelude.{ℕ, ◌/◌, String, Bool, Option, List, ◌∷◌, ◌⊎◌}
use kui_local_multi_exit.Prelude.Int.{ℤ}
use kui_local_multi_exit.Prelude.Dict.{Dict}
use kui_local_multi_exit.Prelude.Exec.{Exec, Failure, returned}
use kui_local_multi_exit.InternalProxy.{CredentialsFile}

-- A `ProxyListener` with its constructor's arguments; `serial` tells the objects apart.
pub record Listener : Type 0 where
  pub slot_id : String
  pub host : String
  pub port : ℕ
  pub interface : String
  pub mark : ℕ
  pub serial : ℕ

-- A `threading.Timer` for `_retry_failed_slot`, its delay in seconds.
pub record Timer : Type 0 where
  pub slot_id : String
  pub generation : ℕ
  pub delay : ℕ
  pub serial : ℕ

pub data Effect : Type 0 where
  ran : List String → Effect
  listener_started listener_stopped : Listener → Effect
  process_terminated process_killed : ℕ → Effect
  worker_started : ℕ → String → ℕ → Effect
  worker_joined : ℕ → Effect
  timer_started timer_cancelled : Timer → Effect

abbrev pub Trace : Type 0
Trace = List Effect

-- subprocess.CompletedProcess
pub record RunResult : Type 0 where
  pub returncode : ℤ
  pub stdout : String
  pub stderr : String

-- An exception of `subprocess.run`: the name of its type, and its text.
pub record RunError : Type 0 where
  pub type_name : String
  pub text : String

-- `run` answers the `ip` commands, `curl` the requests, which may run into their timeout.
pub record Outside : Type 0 where
  pub run : Trace → List String → RunResult
  pub curl : Trace → List String → RunResult ⊎ RunError
  pub environ : Dict String
  pub credentials : Trace → Option CredentialsFile
  -- traceback.format_exc().strip()
  pub traceback : Trace → Failure → String
  -- `listener.start` returns, or raises what binding the port raised.
  pub listener_starts : Trace → Listener → Bool
  pub listener_ready : Trace → Listener → Bool
  -- process.poll()
  pub poll : Trace → ℕ → Option ℤ
  -- `terminate` and `wait(timeout=3)` return without an exception.
  pub terminates : Trace → ℕ → Bool
  pub worker_alive : Trace → ℕ → Bool
  pub timer_alive : Trace → Timer → Bool
  -- time.time() and time.monotonic()
  pub now : Trace → ℕ
  pub mono : Trace → ℕ

-- int(time.time())
abbrev pub seconds : ℕ → ℕ
seconds ms = ms / 1000

abbrev pub emit : Effect → Exec Trace Unit
emit e t = (returned tt, e ∷ t)
