-- ===== src/MdServer/Updates.antt =====
-- Who is told of new heads: `mdServerLocalUpdateManager` of libkbfs/mdserver_local_shared.go. Folders,
-- servers and channels are numbers; a channel that has been sent nil and closed is in `fired`.
pub mod Fires
use kbfs.Prelude.{
  ℕ, Bool, true, false, not, ◌&&◌, ◌||◌, ◌==◌, ◌≡◌, ◌≢◌, if◌then◌else◌, Option, none, some, List,
  [], ◌∷◌, ◌++◌, Result, ok, err, panicked, arith, Bool-cases, Option-cases, inl, inr, refl, ==_iff,
  ap, ◌⊎◌,
}
use kbfs.Prelude.Action.{Action}
use kbfs.Prelude.Int.{ℤ, ltb_ℤ}
use kbfs.Prelude.Maps.{Map, lookup, insert, erase, lookup-insert, lookup-erase}

pub record UpdateManager : Type 0 where
  pub observers : Map (Map ℕ)
  pub session_heads : Map ℕ
  pub fired : List ℕ

unfoldable pub new_update_manager : UpdateManager
new_update_manager = record { observers = []; session_heads = []; fired = [] }

-- The loop of `setHead`: the channels of the other servers, and the observers that stay
abbrev pub others_of : ℕ → Map ℕ → List ℕ
others_of server [] = []
others_of server ((s, c) ∷ m) =
    let rest = others_of server m in if s == server then rest else c ∷ rest

abbrev pub own_of : ℕ → Map ℕ → Map ℕ
own_of server [] = []
own_of server ((s, c) ∷ m) =
    let rest = own_of server m in if s == server then (s, c) ∷ rest else rest

abbrev pub observers_of : ℕ → UpdateManager → Map ℕ
observers_of tlf m = elim (lookup tlf m.observers) [ none ↦ [] | some os ↦ os ]

abbrev pub is_empty_map : Map ℕ → Bool
is_empty_map [] = true
is_empty_map (x ∷ m) = false

unfoldable pub set_head : ℕ → ℕ → UpdateManager → UpdateManager
set_head tlf server m =
    let os = observers_of tlf m in
    let kept = own_of server os in
    record {
      session_heads = insert tlf server m.session_heads;
      fired = others_of server os ++ m.fired;
      observers = if is_empty_map kept then erase tlf m.observers else insert tlf kept m.observers;
    }

abbrev pub is_head_session : ℕ → Option ℕ → Bool
is_head_session server none = false
is_head_session server (some s) = s == server

-- `registerForUpdate`, with a new channel
unfoldable pub register_for_update : ℕ → ℤ → ℤ → ℕ → ℕ → Action UpdateManager ℕ
register_for_update tlf curr_head merged_head server channel m =
    if ltb_ℤ curr_head merged_head && not (is_head_session server (lookup tlf m.session_heads))
    then (ok channel, record m { fired = channel ∷ m.fired })
    else elim (lookup server (observers_of tlf m)) [
      | some c ↦ (err panicked, m)
      | none ↦ (
        ok channel,
        record m {
          observers = insert tlf (insert server channel (observers_of tlf m)) m.observers;
        },
      )
    ]

pub data UpdateCall : Type 0 where
  head_call : ℕ → ℕ → UpdateCall
  register_call : ℕ → ℤ → ℤ → ℕ → ℕ → UpdateCall

unfoldable pub perform_update_call : UpdateCall → UpdateManager → UpdateManager
unfolding set_head register_for_update
perform_update_call (head_call tlf server) m = set_head tlf server m
perform_update_call (register_call tlf curr_head merged_head server channel) m =
    (register_for_update tlf curr_head merged_head server channel m).1

abbrev pub run_update_calls : List UpdateCall → UpdateManager → UpdateManager
run_update_calls [] m = m
run_update_calls (c ∷ cs) m = run_update_calls cs (perform_update_call c m)

abbrev pub has : ℕ → List ℕ → Bool
has c [] = false
has c (x ∷ xs) = let rest = has c xs in if x == c then true else rest
