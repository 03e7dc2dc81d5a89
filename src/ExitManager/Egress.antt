-- ===== src/ExitManager/Egress.antt =====
-- _connect_worker of vps/exit_manager.py: what is asked of the address that a tunnel leaves from,
-- before the target probes. The answers of check_geo and check_residential are arguments: `geo_of`
-- and `residential_of`, each a function of the trace and the address.
pub mod Locked
use kui_local_multi_exit.Prelude.{
  ℕ, String, ◌<>◌, ◌==◌, Bool, true, false, not, ◌&&◌, ◌||◌, Option, none, some, List, [], ◌∷◌, any,
  if◌then◌else◌,
}
use kui_local_multi_exit.Prelude.Dict
use kui_local_multi_exit.Prelude.Int.{ℤ}
use kui_local_multi_exit.Prelude.Text.{is_country_code, is_empty, lower, strip, upper}
use kui_local_multi_exit.Prelude.Exec.{Exec, pure, raise, runtime_error, gets, ◌>>=◌, ◌>>◌}
use kui_local_multi_exit.Json.{
  Fields, Json, end, field, null, bool, num, str, arr, obj, dumps, lookup, lookup_obj, truthy,
}
use kui_local_multi_exit.Models.{ExitSlotSnapshot}
use kui_local_multi_exit.SlotConfig.{is_connectivity_only_slot}
use kui_local_multi_exit.Outside.{Outside, Trace}
use kui_local_multi_exit.ExitManager.{Manager}
use kui_local_multi_exit.ExitManager.Nodes.{is_exit_country}
use kui_local_multi_exit.ExitManager.Lifecycle.{penalize}
use kui_local_multi_exit.ExitManager.Health.{is_stale}

-- str(v); a list or a dict stands in its JSON form, whose text is no country either
abbrev text_of : Json → String
text_of null = "None"
text_of (bool true) = "True"
text_of (bool false) = "False"
text_of (str s) = s
text_of v = dumps v

-- str(d.get(k, default))
abbrev text_at : String → String → Fields → String
text_at k default d = elim (lookup k d) [ none ↦ default | some v ↦ text_of v ]

-- str(x or y), where `y` is what comes of the next alternative
abbrev or_else : Option Json → String → String
or_else none y = y
or_else (some v) y = if truthy v then text_of v else y

-- What becomes of the attempt: the result that goes on, or a penalty for the node and an exception.
pub data Verdict : Type 0 where
  admitted : Fields → Verdict
  refused : ℕ → String → Verdict

abbrev pub geo_country : Fields → String
geo_country geo = upper (or_else (lookup "country_code" geo) "")

abbrev skipped_result : Fields → Fields
skipped_result geo = field "status" (str "skipped") (
    field "validation_mode" (str "connectivity_only") (
      field "is_residential" (bool false) (
        field "egress_type" (str "unverified") (
          field "egress_type_label" (str "未验证IP")
            (field "raw" (obj (field "geo" (obj geo) end)) end)))))

abbrev not_allowed : String → String
not_allowed actual = "egress country " <> (actual <> " not allowed (only JP/KR/US permitted)")

abbrev mismatch : String → String → String
mismatch country actual = "egress country mismatch: target=" <> (country <> (", actual=" <> actual))

-- A slot that only asks for connectivity: the country of the address decides.
unfoldable pub connectivity_verdict : String → Fields → Verdict
connectivity_verdict country geo =
    let actual = geo_country geo in
    if not (is_country_code actual)
    then refused 5000 "egress country unknown"
    else if not (is_exit_country actual)
    then refused 50000 (not_allowed actual)
    else if not (country == "ANY") && not (actual == country)
    then refused 20000 (mismatch country actual)
    else admitted (skipped_result geo)

-- The country that a residential check names: that of its geo data, or that of its raw answer.
abbrev pub residential_country : Fields → String
residential_country result =
    let raw = lookup_obj "raw" result in
    upper (
      or_else (lookup "country_code" (lookup_obj "geo" raw))
        (or_else (lookup "countryCode" raw) ""))

abbrev pub egress_type : Fields → String
egress_type result = lower (text_at "egress_type" "unknown" result)

abbrev pub check_status : Fields → String
check_status result = lower (text_at "status" "" result)

-- Any other slot; a node is never marked as a fallback for another country, since `_reserve_node`
-- removes the mark.
unfoldable pub residential_verdict : String → Bool → Fields → Verdict
residential_verdict country allow_non_residential result =
    let actual = residential_country result in
    if not (is_empty actual) && not (is_exit_country actual)
    then refused 50000 (not_allowed actual)
    else if not (country == "ANY") && (is_country_code actual && not (actual == country))
    then refused 20000 (mismatch country actual)
    else if not (check_status result == "checked") || egress_type result == "unknown"
    then refused 5000 "TestISP check failed or unknown IP type"
    else if not (is_country_code actual)
    then refused 5000 "egress country unknown"
    else if egress_type result == "datacenter" && not allow_non_residential
    then refused 50000 "exit classified as datacenter"
    else admitted result

-- KUI_ALLOW_NON_RESIDENTIAL
abbrev pub allows_non_residential : Outside → Bool
allows_non_residential out =
    let raw : String = elim (Dict.get "KUI_ALLOW_NON_RESIDENTIAL" out.environ) [
      | none ↦ "1"
      | some s ↦ s
    ] in
    let value = lower (strip raw) in
    value == "1" || (value == "true" || (value == "yes" || value == "on"))

module _ (out : Outside) (me : ℕ) (geo_of residential_of : Trace → String → Fields) where
  abbrev pub apply_verdict : String → Verdict → Exec Manager (Option Fields)
  apply_verdict endpoint (admitted result) = pure (some result)
  apply_verdict endpoint (refused penalty message) = do
    penalize out me endpoint penalty
    raise (runtime_error message)

  abbrev pub verdict_of : ExitSlotSnapshot → String → Trace → Verdict
  verdict_of slot egress t =
      if is_connectivity_only_slot slot.id
      then connectivity_verdict slot.country (geo_of t egress)
      else residential_verdict slot.country (allows_non_residential out) (residential_of t egress)

  -- From the address on to the result that is recorded; `none` where the worker returns, because it
  -- is stale.
  unfoldable pub admit_egress :
      ExitSlotSnapshot → ℕ → String → String → Exec Manager (Option Fields)
  admit_egress slot generation endpoint egress = do
    stale ← is_stale out me slot.id generation
    if stale then pure none else (do
      if is_empty egress then raise (runtime_error "real egress IP unavailable") else (do
        verdict ← gets (λ m. verdict_of slot egress m.trace)
        late ← is_stale out me slot.id generation
        if late then pure none else apply_verdict endpoint verdict))
