-- ===== src/Prs/Recovery/Loop.antt =====
-- channel/github/prs.rs: every pass, and the loop, leaves a poll at rest.
use kitaebot.Common.{
  ℕ, ◌≡◌, refl, sym, subst, ap, get, list_key, nat_key, codes, List, [], ◌∷◌, ◌++◌, Text, Option,
  none, some, Bool-cases, Option-cases, inl, inr,
}
use kitaebot.Trust.{Trust}
use kitaebot.Prs.Feedback.{FeedbackDispatch}
use kitaebot.Prs.Reviews.{ReviewDispatch}
use kitaebot.Prs.State.{
  PollState, InFlight, Role, author, contributor, Poll, send, roll_back_in_flight, save_state,
  restored, session_for,
}
use kitaebot.Prs.Poll.{Outside, review_turn, send_all, pruned, remove_all}
use kitaebot.Prs.Passes.{
  prepare, review_all, feedback_pass, review_request_pass, tracked_pass, contributed_pass,
  poll_once, ticked, tick, booted, ticks, poll_loop, with_count, contributed_query,
}
use kitaebot.Prs.Chain.{then_pass-kept}
use kitaebot.Prs.Recovery.{
  Durable, recovered, Held, AtRest, Awaited, record_event-sent, saved-AtRest, recovered-Alike,
  review_turn-AtRest, final,
}

module _ (c : PollState × PollState) where
  send_all-AtRest :
      (role : Role) (ds : List FeedbackDispatch) (p : Poll)
      → ((n : ℕ) (r s m : Text) → Awaited p.state (kitaebot.Prs.State.sent role n r s m))
      → AtRest c p
      → AtRest c (send_all role ds p)
  unfolding send_all send
  send_all-AtRest role [] p a h = h
  send_all-AtRest role (d ∷ ds) p a h =
      send_all-AtRest role ds (send role d.pr_number d.repo d.message p) a (record {
        held =
            record_event-sent c p (p.state, p.state) role d.pr_number d.repo d.message h.held
              (a d.pr_number d.repo (session_for role d.repo d.pr_number) d.message)
              (recovered-Alike p.state h.idle);
        idle = h.idle;
      })

  review_all-AtRest :
      (o : Outside) (ds : List ReviewDispatch) (p : Poll)
      → AtRest c p
      → AtRest c (review_all o ds p).0
  unfolding review_all
  review_all-AtRest o [] p h = h
  review_all-AtRest o (d ∷ ds) p h = elim (Bool-cases (prepare o p.events d)) [
    | inl e ↦
        rw (e, review_all) (review_all-AtRest o ds (review_turn d p) (review_turn-AtRest c d p h))
    | inr e ↦ rw (e, review_all) (review_all-AtRest o ds p h)
  ]

  pruned-AtRest : (ks : List Text) (p : Poll) → AtRest c p → AtRest c (pruned ks p)
  unfolding pruned
  pruned-AtRest [] p h = h
  pruned-AtRest (k ∷ ks) p h =
      saved-AtRest c p (record p.state { reviewed = remove_all (k ∷ ks) p.state.reviewed }) _ h.held
        h.idle

  module _ (o : Outside) (bot : Text) (trust : Trust) where
    feedback_pass-AtRest : (p : Poll) → AtRest c p → AtRest c (feedback_pass o bot trust p).0
    unfolding feedback_pass Awaited
    feedback_pass-AtRest p h =
        elim (Option-cases (o.search_issues p.events (codes "is:pr is:open author:" ++ bot))) [
          | inl e ↦ rw (e, feedback_pass) h
          | inr (prs, e) ↦ rw (e, feedback_pass) (search send_all-AtRest)
        ]

    review_request_pass-AtRest :
        (p : Poll) → AtRest c p → AtRest c (review_request_pass o bot trust p).0
    unfolding review_request_pass with_count
    review_request_pass-AtRest p h =
        elim (Option-cases
          (o.search_issues p.events (codes "is:pr is:open review-requested:" ++ bot))) [
            | inl e ↦ rw (e, review_request_pass) h
            | inr (prs, e) ↦ rw (e, review_request_pass) (search review_all-AtRest)
          ]

    tracked_pass-AtRest : (p : Poll) → AtRest c p → AtRest c (tracked_pass o bot trust p).0
    unfolding tracked_pass
    tracked_pass-AtRest p h = search (review_all-AtRest, pruned-AtRest)

    contributed_pass-AtRest : (p : Poll) → AtRest c p → AtRest c (contributed_pass o bot trust p).0
    unfolding contributed_pass Awaited
    contributed_pass-AtRest p h =
        elim (Option-cases (o.search_issues p.events (contributed_query o bot trust))) [
          | inl e ↦ rw (e, contributed_pass) h
          | inr (prs, e) ↦ rw (e, contributed_pass) (search send_all-AtRest)
        ]

    poll_once-AtRest : (p : Poll) → AtRest c p → AtRest c (poll_once o bot trust p).0
    unfolding poll_once with_count
    poll_once-AtRest p h =
        then_pass-kept (AtRest c) (feedback_pass o bot trust p) _ (feedback_pass-AtRest p h)
          λ p1 h1.
            then_pass-kept (AtRest c) (review_request_pass o bot trust p1) _
              (review_request_pass-AtRest p1 h1)
              λ p2 h2.
                then_pass-kept (AtRest c) (with_count (tracked_pass o bot trust p2))
                  (contributed_pass o bot trust) (tracked_pass-AtRest p2 h2) contributed_pass-AtRest

  ticked-AtRest :
      (o : Outside) (bot : Text) (trust : Trust) (start : Text) (r : Poll × Option ℕ)
      → AtRest c r.0
      → AtRest c (ticked o bot trust start r)
  unfolding ticked
  ticked-AtRest o bot trust start (p, none) h = h
  ticked-AtRest o bot trust start (p, some n) h =
      saved-AtRest c p (record p.state { last_poll = start }) _ h.held h.idle

  ticks-AtRest :
      (bot : Text) (trust : Trust) (rounds : List (Outside × Text)) (p : Poll)
      → AtRest c p
      → AtRest c (ticks bot trust rounds p)
  unfolding ticks tick
  ticks-AtRest bot trust [] p h = h
  ticks-AtRest bot trust ((o, start) ∷ rest) p h =
      ticks-AtRest bot trust rest _ (
        ticked-AtRest o bot trust start (poll_once o bot trust p)
          (poll_once-AtRest o bot trust p h))

began :
    (c : PollState × PollState) (s : PollState)
    → c.1 ≡ recovered c.0
    → Held c (record { state = s; events = [] }) c
unfolding Durable final
began c s h = record {
  durable = record {
    polled = ap (λ t. t.last_poll) (sym h);
    entries = λ k. ap (λ t. get k t.reviewed) (sym h);
  };
  ends = refl;
}

booted-AtRest :
    (c : PollState × PollState) (r : PollState × Option InFlight)
    → r.0.in_flight ≡ none
    → Held c (record { state = r.0; events = [] }) c
    → (r.1 ≡ none → c ≡ (r.0, r.0))
    → AtRest c (booted r)
unfolding booted
booted-AtRest c (s, none) idle h at = record {
  held = subst (Held c (record { state = s; events = [] })) (at refl) h;
  idle = idle;
}
booted-AtRest c (s, some turn) idle h at =
    saved-AtRest c (record { state = s; events = [] }) s c h idle

rolled_idle : (s : PollState) → (roll_back_in_flight s).0.in_flight ≡ none
unfolding roll_back_in_flight
rolled_idle s = elim (Option-cases s.in_flight) [ inl e ↦ rw e refl | inr (turn, e) ↦ rw e refl ]

kept_idle : (s : PollState) → (roll_back_in_flight s).1 ≡ none → s ≡ (roll_back_in_flight s).0
unfolding roll_back_in_flight
kept_idle s = elim (Option-cases s.in_flight) [
  | inl e ↦ rw e (λ k. refl)
  | inr (turn, e) ↦ rw e (λ k. cc)
]

boot-AtRest : (s : PollState) → AtRest (s, recovered s) (booted (roll_back_in_flight s))
unfolding recovered
boot-AtRest s =
    booted-AtRest (s, recovered s) (roll_back_in_flight s) (rolled_idle s)
      (began (s, recovered s) (recovered s) refl) (λ k. ap (λ t. (t, recovered s)) (kept_idle s k))

-- Where every save is stored, whatever GitHub, git and the ledger answer, and wherever the polls
-- stop: the next start has the
-- state of the last moment without a turn in flight again, its cursor and every entry, and no
-- reviewer's turn is sent that the store does not have as in flight.
pub poll_loop-Durable :
    (bot : Text) (trust : Trust) (rounds : List (Outside × Text)) (stored : PollState)
    → Durable (stored, recovered stored) (poll_loop bot trust rounds stored).events
unfolding poll_loop
poll_loop-Durable bot trust rounds stored =
    (ticks-AtRest (stored, recovered stored) bot trust rounds _ (boot-AtRest stored)).held.durable
