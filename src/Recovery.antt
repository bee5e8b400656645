-- ===== src/Recovery.antt =====
-- cmd/server/monitor.go: finalizeState, which decides at the end of a scan which containers have
-- recovered, and the notices about them.
pub mod Rule
pub mod Streak
use chowkidar.Prelude.{
  ℕ, suc, Bool, true, false, ◌&&◌, ◌||◌, not, String, List, [], ◌∷◌, ◌++◌, Option, none, some,
  lookup, Assoc, delete, get_or, elem, map, ltb, nat_eq, if◌then◌else◌, ℤ, pos, negsuc,
}
use chowkidar.Text.{join}
use chowkidar.Model.{Time, Container, Config}
use chowkidar.Server.{
  App, Env, CycleState, container_name, log_action_history, notify, should_notify,
}

-- A state bucket at the end of a scan: kept, perhaps with a new count, or given up.
pub data Verdict : Type 0 where
  keeps : CycleState → Verdict
  recovers : Verdict

-- The stable scans that a recovery wants, 3 if the job asks for none.
abbrev pub required_scans : ℤ → ℕ
required_scans (pos n) = if nat_eq n 0 then 3 else n
required_scans (negsuc n) = 3

abbrev pub count_stable : CycleState → Verdict
count_stable s =
    if ltb (suc s.stable_scans) (required_scans s.stable_scans_required)
    then keeps (record s { stable_scans = suc s.stable_scans })
    else recovers

-- The body of the loop over a.cState; `problem` says whether the container is problematic.
unfoldable pub verdict_of : Bool → Time → CycleState → Verdict
verdict_of problem now s =
    if s.exhausted
    then keeps s
    else if problem
    then keeps (record s { stable_scans = 0 })
    else if ltb now s.deadline
    then keeps s
    else if s.last_failed
    then count_stable s
    else recovers

-- The buckets that are left, and the names that recover.
abbrev keep_entry : String → Verdict → Assoc CycleState → Assoc CycleState
keep_entry name (keeps s) m = (name, s) ∷ m
keep_entry name recovers m = m

unfoldable pub kept : List String → Time → Assoc CycleState → Assoc CycleState
unfolding verdict_of
kept problems now [] = []
kept problems now ((name, s) ∷ m) =
    keep_entry name (verdict_of (elem name problems) now s) (kept problems now m)

abbrev recovered_entry : String → Verdict → List String → List String
recovered_entry name (keeps s) names = names
recovered_entry name recovers names = name ∷ names

unfoldable pub recovered : List String → Time → Assoc CycleState → List String
unfolding verdict_of
recovered problems now [] = []
recovered problems now ((name, s) ∷ m) =
    recovered_entry name (verdict_of (elem name problems) now s) (recovered problems now m)

-- recoveredContainer.
pub record Recovered : Type 0 where
  pub name : String
  pub notifications : List String
  pub rule_name : String

abbrev recovery_of : App → String → Recovered
recovery_of a name = record {
  name = name;
  notifications = get_or [] (lookup name a.last_job_notifications);
  rule_name = get_or "" (lookup name a.last_job_rule_name);
}

unfoldable pub delete_all {ℓ} : {V : Type ℓ} → List String → Assoc V → Assoc V
delete_all [] m = m
delete_all (k ∷ ks) m = delete_all ks (delete k m)

abbrev names_of : List Container → List String
names_of = map container_name

-- Starting containers count as problematic while they are in a retry cycle.
unfoldable pub starting_in_cycle : Assoc CycleState → List String → List String
starting_in_cycle m [] = []
starting_in_cycle m (name ∷ names) =
    let rest = starting_in_cycle m names in
    if elim (lookup name m) [ none ↦ false | some s ↦ ltb 0 s.cycle ] then name ∷ rest else rest

unfoldable pub problematic :
    App → List Container → List Container → List Container → List Container → List String
unfolding starting_in_cycle
problematic a filtered exited restarting starting =
    names_of filtered
    ++ names_of exited
    ++ names_of restarting
    ++ starting_in_cycle a.c_state (names_of starting)

-- finalizeState, with the problematic names at hand.
unfoldable pub finalize_state :
    List String
    → Time
    → List Container
    → List Container
    → List Container
    → App
    → App × List Recovered
unfolding kept recovered delete_all
finalize_state problems now filtered exited restarting a =
    let names = recovered problems now a.c_state in
    (
      record a {
        c_state = kept problems now a.c_state;
        last_job_notifications = delete_all names a.last_job_notifications;
        last_job_rule_name = delete_all names a.last_job_rule_name;
        unhealthy = filtered;
        exited = exited;
        restarting = restarting;
        last_scan = now;
      },
      map (recovery_of a) names,
    )

-- What scanOnce tells about one recovered container.
unfoldable pub announce_recovery : Config → Time → Recovered → App → App
announce_recovery cfg now r a =
    let c : Container = record {
      id = "";
      names = join "/" r.name ∷ [];
      state = "";
      status = "";
      labels = [];
    } in
    let a₁ = log_action_history c "container recovered" "recovered" 0 "recovered" "" "" 0 now a in
    let (a₂, sends) = should_notify cfg now r.name a₁ in
    if sends
    then notify "container recovered" r.name 0 (some r.notifications)
        (notify "container recovered" r.name 0 none a₂)
    else a₂

unfoldable pub announce_recoveries : Config → Time → List Recovered → App → App
announce_recoveries cfg now [] a = a
announce_recoveries cfg now (r ∷ rs) a =
    announce_recoveries cfg now rs (announce_recovery cfg now r a)
