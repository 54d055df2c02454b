-- ===== src/Prs/Recovery.antt =====
-- What a crash at any moment of the polls of channel/github/prs.rs leaves in the store.
pub mod Loop
use kitaebot.Common.{
  ℕ, ◌≡◌, ◌≢◌, refl, sym, subst, ap, ◌∙◌, Bool, true, false, not, List, [], ◌∷◌, ◌++◌, keep_if,
  Text, Option, none, some, get, get-insert, insert, ◌=?◌, list_key, nat_key, same_list_iff, arith,
  if◌then◌else◌, Option-cases, Bool-cases, inl, inr, append_assoc, ◌↔◌,
}
use kitaebot.Trust.{Trust}
use kitaebot.Prs.Feedback.{FeedbackDispatch, text_leb}
use kitaebot.Prs.Reviews.{Reviewed, ReviewDispatch}
use kitaebot.Prs.State.{
  InFlight, PollState, Role, author, contributor, reviewer, Event, saved, sent, Poll, insert_key,
  remove_key, restored, roll_back_in_flight, record_event, save_state, send, session_for,
}
use kitaebot.Prs.Poll.{Outside, reviewing, landed, review_turn, send_all, pruned, remove_all}
use kitaebot.Prs.Passes.{
  prepare, review_all, feedback_pass, review_request_pass, tracked_pass, contributed_pass,
  poll_once, ticked, tick, booted, ticks, poll_loop, then_pass, plus, with_count,
}

get-insert_key :
    (k j : Text) (v : Text) (m : Reviewed)
    → get j (insert_key k v m) ≡ (if k =? j then some v else get j m)
unfolding get insert_key
get-insert_key k j v [] = refl
get-insert_key k j v ((i, w) ∷ m) =
    ground (arith, same_list_iff k j, same_list_iff i k, same_list_iff i j, get-insert_key k j v m)

get-remove_key :
    (k j : Text) (m : Reviewed) → get j (remove_key k m) ≡ (if k =? j then none else get j m)
unfolding get remove_key
get-remove_key k j [] = ground arith
get-remove_key k j ((i, w) ∷ m) =
    ground (arith, same_list_iff k j, same_list_iff i k, same_list_iff i j, get-remove_key k j m)

pub record Alike (a b : PollState) : Type 0 where
  pub polled : a.last_poll ≡ b.last_poll
  pub entries : (k : Text) → get k a.reviewed ≡ get k b.reviewed

-- What the next start makes of a state.
unfoldable pub recovered : PollState → PollState
unfolding roll_back_in_flight
recovered s = (roll_back_in_flight s).0

unfoldable pub settled_by : Option InFlight → PollState → PollState → PollState
settled_by none s settled = s
settled_by (some turn) s settled = settled

-- The stored state, and the last one that was stored without a turn in flight.
unfoldable pub after : PollState × PollState → Event → PollState × PollState
unfolding settled_by
after (stored, settled) (saved s) = (s, settled_by s.in_flight s settled)
after c (sent role number repo session message) = c

unfoldable pub Awaited : PollState → Event → Type 0
Awaited stored (sent reviewer number repo session message) = stored.in_flight ≢ none
Awaited stored (sent author number repo session message) = Unit
Awaited stored (sent contributor number repo session message) = Unit
Awaited stored (saved s) = Unit

-- Whenever the polls stop, the next start has the last settled state again, and a reviewer's turn
-- is sent only while it is stored as in flight.
unfoldable pub Durable : PollState × PollState → List Event → Type 0
unfolding after Awaited recovered
Durable c [] = Alike (recovered c.0) c.1
Durable c (e ∷ es) = Alike (recovered c.0) c.1 × Awaited c.0 e × Durable (after c e) es

unfoldable pub final : PollState × PollState → List Event → PollState × PollState
unfolding after
final c [] = c
final c (e ∷ es) = final (after c e) es

Durable-append :
    (c : PollState × PollState) (es : List Event) (e : Event)
    → Durable c es
    → Awaited (final c es).0 e
    → Alike (recovered (after (final c es) e).0) (after (final c es) e).1
    → Durable c (es ++ e ∷ [])
unfolding Durable final
Durable-append c [] e h a k = (h, a, k)
Durable-append c (d ∷ es) e (h, b, hs) a k = (h, b, Durable-append (after c d) es e hs a k)

final-append :
    (c : PollState × PollState) (es : List Event) (e : Event)
    → final c (es ++ e ∷ []) ≡ after (final c es) e
unfolding final
final-append c [] e = refl
final-append c (d ∷ es) e = final-append (after c d) es e

-- The events so far, and what they leave.
pub record Held (c : PollState × PollState) (p : Poll) (x : PollState × PollState) : Type 0 where
  pub durable : Durable c p.events
  pub ends : final c p.events ≡ x

module _ (c : PollState × PollState) where
  record_event-Held :
      (p : Poll) (x : PollState × PollState) (e : Event)
      → Held c p x
      → Awaited x.0 e
      → Alike (recovered (after x e).0) (after x e).1
      → Held c (record_event e p) (after x e)
  unfolding record_event
  record_event-Held p x e h a k = record {
    durable = Durable-append c p.events e h.durable (rw h.ends a) (rw h.ends k);
    ends = final-append c p.events e ∙ ap (λ y. after y e) h.ends;
  }

  pub record_event-sent :
      (p : Poll) (x : PollState × PollState) (role : Role) (number : ℕ) (repo message : Text)
      → Held c p x
      → Awaited x.0 (sent role number repo (session_for role repo number) message)
      → Alike (recovered x.0) x.1
      → Held c (send role number repo message p) x
  unfolding send after
  record_event-sent p x role number repo message h a k =
      record_event-Held p x (sent role number repo (session_for role repo number) message) h a k

-- No turn is in flight, and the store has the state.
pub record AtRest (c : PollState × PollState) (p : Poll) : Type 0 where
  pub held : Held c p (p.state, p.state)
  pub idle : p.state.in_flight ≡ none

recovered-idle : (s : PollState) → s.in_flight ≡ none → recovered s ≡ s
unfolding recovered roll_back_in_flight
recovered-idle s h = rw h refl

pub recovered-Alike : (s : PollState) → s.in_flight ≡ none → Alike (recovered s) s
recovered-Alike s h = record {
  polled = ap (λ t. t.last_poll) (recovered-idle s h);
  entries = λ k. ap (λ t. get k t.reviewed) (recovered-idle s h);
}

settled_by-idle :
    (s settled : PollState) → s.in_flight ≡ none → settled_by s.in_flight s settled ≡ s
unfolding settled_by
settled_by-idle s settled h = rw h

restored-insert_key :
    (key : Text) (prev : Option Text) (sha : Text) (m : Reviewed) (k : Text)
    → get key m ≡ prev
    → get k (restored (record { key = key; prev_sha = prev }) (insert_key key sha m)) ≡ get k m
unfolding restored
restored-insert_key key none sha m k h = ground (
  arith,
  same_list_iff key k,
  get-remove_key key k (insert_key key sha m),
  get-insert_key key k sha m,
  h,
)
restored-insert_key key (some prev) sha m k h = ground (
  arith,
  same_list_iff key k,
  get-insert_key key k prev (insert_key key sha m),
  get-insert_key key k sha m,
  h,
)

-- A turn that is rolled back leaves every entry as it was.
rolled_back :
    (d : ReviewDispatch) (s : PollState)
    → Alike
        (recovered (record s {
          reviewed = insert_key d.key d.head_sha s.reviewed;
          in_flight = some (record { key = d.key; prev_sha = get d.key s.reviewed });
        }))
        s
unfolding recovered roll_back_in_flight
rolled_back d s = record {
  polled = refl;
  entries = λ k. restored-insert_key d.key (get d.key s.reviewed) d.head_sha s.reviewed k refl;
}

module _ (c : PollState × PollState) where
  -- A save of an idle state, whose events are those of a poll at rest.
  pub saved-AtRest :
      (p : Poll) (s : PollState) (x : PollState × PollState)
      → Held c p x
      → s.in_flight ≡ none
      → AtRest c (save_state (record p { state = s }))
  unfolding save_state after record_event Awaited
  saved-AtRest p s x h idle = record {
    held =
        subst (λ t. Held c (save_state (record p { state = s })) (s, t))
          (settled_by-idle s x.1 idle)
          (record_event-Held c (record p { state = s }) x (saved s)
            (record { durable = h.durable; ends = h.ends }) tt
            (subst (λ t. Alike (recovered s) t) (sym (settled_by-idle s x.1 idle))
              (recovered-Alike s idle)));
    idle = idle;
  }

  reviewing-Held :
      (d : ReviewDispatch) (p : Poll)
      → AtRest c p
      → Held c (reviewing d p) ((reviewing d p).state, p.state)
  unfolding reviewing save_state after settled_by Awaited
  reviewing-Held d p h =
      let s = record p.state {
        reviewed = insert_key d.key d.head_sha p.state.reviewed;
        in_flight = some (record { key = d.key; prev_sha = get d.key p.state.reviewed });
      } in
      record_event-Held c (record p { state = s }) (p.state, p.state) (saved s)
        (record { durable = h.held.durable; ends = h.held.ends }) tt (rolled_back d p.state)

  pub review_turn-AtRest : (d : ReviewDispatch) (p : Poll) → AtRest c p → AtRest c (review_turn d p)
  unfolding review_turn reviewing landed Awaited
  review_turn-AtRest d p h =
      saved-AtRest (send reviewer d.pr_number d.repo d.message (reviewing d p)) _ _
        (record_event-sent c (reviewing d p) _ reviewer d.pr_number d.repo d.message
          (reviewing-Held d p h) (λ e. cc) (rolled_back d p.state))
        refl
