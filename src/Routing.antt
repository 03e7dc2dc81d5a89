-- ===== src/Routing.antt =====
-- vps/routing.py, class RouteManager: the policy rules of a slot, as `ip` commands on a trace.
pub mod Install
use kui_local_multi_exit.Prelude.{
  ℕ, ◌+◌, String, ◌<>◌, Bool, true, false, ◌&&◌, ◌||◌, List, [], ◌∷◌, ◌==◌, any, if◌then◌else◌,
}
use kui_local_multi_exit.Prelude.Text.{decimal, contains, strip, is_empty, join, lines, begins_with}
use kui_local_multi_exit.Prelude.Exec.{
  Exec, returned, runtime_error, pure, raise, attempt, ◌>>=◌, ◌>>◌,
}
use kui_local_multi_exit.Prelude.Int.{pos, eqz}
use kui_local_multi_exit.Models.{ExitSlotSnapshot}
use kui_local_multi_exit.Outside.{Outside, RunResult, Trace, ran}

abbrev missing_messages : List String
missing_messages = "No such file" ∷ "Cannot find device" ∷ "FIB table does not exist" ∷ []

-- (result.stderr or result.stdout or "command failed").strip()
unfoldable pub failure_detail : RunResult → String
failure_detail r = strip (
    if is_empty r.stderr
    then if is_empty r.stdout then "command failed" else r.stdout
    else r.stderr)

abbrev pub exited_zero : RunResult → Bool
exited_zero r = eqz r.returncode (pos 0)

unfoldable pub is_tolerated : Bool → RunResult → Bool
is_tolerated allow_missing r =
    exited_zero r || (allow_missing && any (λ m. contains m (failure_detail r)) missing_messages)

abbrev pub fail_closed_preference : ExitSlotSnapshot → ℕ
fail_closed_preference slot = 1000 + slot.route_table

abbrev pub rule : String → ExitSlotSnapshot → List String → List String
rule verb slot rest = "ip" ∷ "rule" ∷ verb ∷ "fwmark" ∷ decimal slot.mark ∷ rest

abbrev pub lookup_rule : String → ExitSlotSnapshot → List String
lookup_rule verb slot =
    rule verb slot ("lookup" ∷ decimal slot.route_table ∷ "pref" ∷ decimal slot.route_table ∷ [])

abbrev pub unreachable_rule : String → ExitSlotSnapshot → List String
unreachable_rule verb slot =
    rule verb slot ("unreachable" ∷ "pref" ∷ decimal (fail_closed_preference slot) ∷ [])

abbrev pub flush_table : ExitSlotSnapshot → List String
flush_table slot = "ip" ∷ "route" ∷ "flush" ∷ "table" ∷ decimal slot.route_table ∷ []

abbrev pub endpoint_route : ExitSlotSnapshot → String → String → String → List String
endpoint_route slot endpoint_ip gateway external =
    "ip"
    ∷ "route"
    ∷ "add"
    ∷ (endpoint_ip <> "/32")
    ∷ "via"
    ∷ gateway
    ∷ "dev"
    ∷ external
    ∷ "table"
    ∷ decimal slot.route_table
    ∷ []

abbrev pub default_route : ExitSlotSnapshot → List String
default_route slot =
    "ip"
    ∷ "route"
    ∷ "add"
    ∷ "default"
    ∷ "dev"
    ∷ slot.tunnel_name
    ∷ "table"
    ∷ decimal slot.route_table
    ∷ []

module _ (out : Outside) where
  -- `_execute`
  unfoldable pub execute : Bool → List String → Exec Trace Unit
  execute allow_missing command t =
      if is_tolerated allow_missing (out.run t command)
      then (returned tt, ran command ∷ t)
      else raise (runtime_error (join " " command <> (": " <> failure_detail (out.run t command))))
          (ran command ∷ t)

  unfoldable pub cleanup : ExitSlotSnapshot → Exec Trace Unit
  cleanup slot = do
    execute true (lookup_rule "del" slot)
    execute true (unreachable_rule "del" slot)
    execute true (flush_table slot)

  unfoldable pub is_installed : ExitSlotSnapshot → Exec Trace Bool
  is_installed slot t =
      let command = "ip" ∷ "route" ∷ "show" ∷ "table" ∷ decimal slot.route_table ∷ [] in
      let r = out.run t command in
      (
        returned (
            exited_zero r
            && any
                (λ line.
                  begins_with "default " (strip line) && contains ("dev " <> slot.tunnel_name) line)
                (lines r.stdout)),
        ran command ∷ t,
      )

  unfoldable pub add_rules : ExitSlotSnapshot → String → String → String → Exec Trace Unit
  add_rules slot endpoint_ip gateway external = do
    execute false (endpoint_route slot endpoint_ip gateway external)
    execute false (default_route slot)
    execute false (lookup_rule "add" slot)
    execute false (unreachable_rule "add" slot)

  unfoldable pub install : ExitSlotSnapshot → String → String → String → Exec Trace Unit
  install slot endpoint_ip gateway external = do
    cleanup slot
    attempt (add_rules slot endpoint_ip gateway external) (λ e. cleanup slot >> raise e)
