-- ===== src/Relay/Task/Machine.antt =====
-- The machine that the relay controller implements: clients say which relay they want, and each
-- task shows it, once for each wish.
use mathlib.Core.Path.{subst}
use esp32_band_decoder.Base.{
  ℕ, ◌≤◌, ◌≡◌, refl, ap, List, [], ◌∷◌, ◌++◌, true, false, Option, some, ℤ, pos, ltb_ℤ,
}
use esp32_band_decoder.Relay.Task.{Loop}
use esp32_band_decoder.Relay.{
  Relay, RelayChangeRequest, num_relays, bad_relay, no_request, eq_request, update_ℤ,
}

-- What is wanted, what each task carried out last, which relay is shown, and the relay of each band.
pub record View : Type 0 where
  pub wanted : RelayChangeRequest
  pub carried_out : List RelayChangeRequest
  pub shown : ℤ
  pub remembered : ℤ → Option ℤ

-- One step of the machine. A wish is for a relay of the board. A task carries it out only if it is
-- new for that task and names a relay; a report of the board names a relay that the board has, or 0
-- for none; and a task that joins has carried out nothing.
pub data Move : View → View → Type 0 where
  asked :
      (v : View) (wish : RelayChangeRequest)
      → bad_relay wish.relay_id ≡ false
      → Move v (record v { wanted = wish })
  switched :
      (v : View) (before after : List RelayChangeRequest) (old : RelayChangeRequest)
      → v.carried_out ≡ before ++ (old ∷ after)
      → eq_request v.wanted old ≡ false
      → ltb_ℤ (pos 0) v.wanted.relay_id ≡ true
      → Move v (record v {
        carried_out = before ++ (v.wanted ∷ after);
        shown = v.wanted.relay_id;
        remembered = update_ℤ v.remembered v.wanted.band_number (some v.wanted.relay_id);
      })
  reported : (v : View) (k : ℕ) → k ≤ num_relays → Move v (record v { shown = pos k })
  joined : (v : View) → Move v (record v { carried_out = no_request ∷ v.carried_out })

pub data Moves : View → View → Type 0 where
  none_made : (v : View) → Moves v v
  moved : {u v w : View} → Moves u v → Move v w → Moves u w

abbrev pub requests : List Loop → List RelayChangeRequest
requests [] = []
requests (l ∷ tasks) = l.last_processed ∷ requests tasks

abbrev pub view : {C : Type 0} → List Loop × Relay C → View
view (tasks, r) = record {
  wanted = r.latest_request;
  carried_out = requests tasks;
  shown = r.currently_selected_relay;
  remembered = r.last_selected_relay_for_band;
}

-- The view with one of the tasks picked out.
abbrev pub around : {C : Type 0} → List Loop → List Loop → Loop × Relay C → View
around before after (l, r) = record {
  wanted = r.latest_request;
  carried_out = requests before ++ (l.last_processed ∷ requests after);
  shown = r.currently_selected_relay;
  remembered = r.last_selected_relay_for_band;
}

requests-append :
    (before after : List Loop) (l : Loop)
    → requests before ++ (l.last_processed ∷ requests after) ≡ requests (before ++ (l ∷ after))
requests-append [] after l = refl
requests-append (b ∷ before) after l =
    ap (λ t. b.last_processed ∷ t) (requests-append before after l)

pub around-view :
    {C : Type 0} (before after : List Loop) (l : Loop) (r : Relay C)
    → around before after (l, r) ≡ view (before ++ (l ∷ after), r)
around-view before after l r =
    ap (λ t. record (around before after (l, r)) { carried_out = t })
      (requests-append before after l)

pub Moves-append : {u v w : View} → Moves u v → Moves v w → Moves u w
Moves-append h (none_made v) = h
Moves-append h (moved before m) = moved (Moves-append h before) m

pub Moves-eq : {u v w : View} → v ≡ w → Moves u v → Moves u w
Moves-eq {u} e h = subst (Moves u) e h
