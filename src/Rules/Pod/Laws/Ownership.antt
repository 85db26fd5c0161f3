-- ===== src/Rules/Pod/Laws/Ownership.antt =====
-- Which of the rules in oom.go, crashloop.go, restarts.go and terminated.go of
-- internal/diagnosis/rules/pod speak of one container.
use mathlib.Core.List.{append-nil}
use kubewhy.Base.{
  ◌≤◌, ◌≡◌, refl, Bool, true, false, [], ◌∷◌, ◌++◌, Option, none, some, String, String_eq, arith,
  length, not, is_some, ◌&&◌, ◌||◌, if◌then◌else◌, ◌==◌, Bool-cases, inl, inr,
}
use kubewhy.Base.Int.{pos, ℤ_eq}
use kubewhy.Diagnosis.{Diagnosis}
use kubewhy.Snapshot.Api.{Terminated}
use kubewhy.Snapshot.Pod.{Pod, Container, restarts, terminated, last_terminated}
use kubewhy.Rules.Pod.Helpers.{container_running, oom_termination, is_flapping, in_backoff}
use kubewhy.Rules.Pod.Oom.{oom_of, oom_found}
use kubewhy.Rules.Pod.CrashLoop.{crash_loop_of, is_crash_looping, crash_loop_diagnosis}
use kubewhy.Rules.Pod.Stopped.{awaiting_restart, stopped_of, stopped_found, is_stopped}
use kubewhy.Rules.Pod.History.{history_of, history_diagnosis}

-- The three rules, by what they ask: whether the container loops and whether it runs again.
one_owner :
    (snap : Pod) (c : Container) (o : Option Terminated × String) (backoff flaps again : Bool)
    (x y : Diagnosis)
    → length (
        oom_found snap c o
        ++ (if (backoff || flaps) && not (is_some o.0) then x ∷ [] else [])
        ++ (if again && not (flaps || backoff) && not (is_some o.0) then y ∷ [] else []))
      ≤ 1
one_owner snap c (none, f) backoff flaps again x y = ground arith
one_owner snap c (some t, f) backoff flaps again x y = ground arith

looping_not_stopped :
    (snap : Pod) (c : Container) (o : Option Terminated)
    → awaiting_restart snap ≡ true
    → (in_backoff c || is_flapping c snap.now) ≡ true
    → stopped_found snap c o ≡ []
unfolding is_stopped
looping_not_stopped snap c none h e = refl
looping_not_stopped snap c (some t) h e = ground arith

resting_not_looping :
    (snap : Pod) (c : Container)
    → (in_backoff c || is_flapping c snap.now) ≡ false
    → crash_loop_of snap c ≡ []
unfolding crash_loop_of
resting_not_looping snap c e = rw e refl

crash_loop_of-le : (snap : Pod) (c : Container) → length (crash_loop_of snap c) ≤ 1
unfolding crash_loop_of
crash_loop_of-le snap c = elim (Bool-cases (is_crash_looping snap c)) [
  | inl e ↦ rw e (omega arith)
  | inr e ↦ rw e (omega arith)
]

stopped_found-le :
    (snap : Pod) (c : Container) (o : Option Terminated) → length (stopped_found snap c o) ≤ 1
stopped_found-le snap c none = omega arith
stopped_found-le snap c (some t) = ground arith

-- Whatever the Pod, a container gets one finding at most from the three rules on OOM kills, on restart
-- loops and on past restarts.
pub restarts_one_owner :
    (snap : Pod) (c : Container)
    → length (oom_of snap c ++ crash_loop_of snap c ++ history_of snap c) ≤ 1
unfolding oom_of crash_loop_of history_of
restarts_one_owner snap c =
    one_owner snap c (oom_termination c) (in_backoff c) (is_flapping c snap.now)
      (not (restarts c == pos 0) && container_running c) (crash_loop_diagnosis snap c)
      (history_diagnosis snap c (last_terminated c))

-- In a Pod that restarts its containers and has not failed, a container gets one finding at most from
-- the two rules on restart loops and on containers that ended with an error.
pub stopped_or_looping :
    (snap : Pod) (c : Container)
    → awaiting_restart snap ≡ true
    → length (crash_loop_of snap c ++ stopped_of snap c) ≤ 1
unfolding stopped_of
stopped_or_looping snap c h = elim (Bool-cases (in_backoff c || is_flapping c snap.now)) [
  | inl e ↦ rw (looping_not_stopped snap c (terminated c) h e, append-nil) (crash_loop_of-le snap c)
  | inr e ↦ rw (resting_not_looping snap c e) (stopped_found-le snap c (terminated c))
]
