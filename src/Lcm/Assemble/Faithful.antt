-- ===== src/Lcm/Assemble/Faithful.antt =====
-- context/lcm/engine.rs: a conversation that was pushed is assembled as it was.
use kitaebot.Common.{
  ◌≡◌, refl, ap, sym, subst, ◌∙◌, Bool, false, List, [], ◌∷◌, ◌++◌, Option, none, Text, Result, ok,
  ◌>>=◌, bind-ok, ok_injective, All, any, arith, ◌≤◌, append_assoc, append-nil,
}
use kitaebot.Types.{Message, system}
use kitaebot.Lcm.Store.{Store, Item, message, EngineError, push_message, reconstruct_message}
use kitaebot.Lcm.Store.Ordered.{Ascending}
use kitaebot.Lcm.Store.Roundtrip.{
  Storable, Pushed, new_row, push_message-Pushed, reconstruct-message_row,
}
use kitaebot.Lcm.Assemble.{is_summary, item_message, item_messages, system_content, assemble_sync}

-- A series of pushes without files.
unfoldable pub push_all : Text → List Message → Store → Result EngineError Store
push_all now [] s = ok s
push_all now (m ∷ ms) s = push_message now m none s >>= λ s'. push_all now ms s'

any-append :
    {A : Type 0} (p : A → Bool) (xs ys : List A)
    → any p xs ≡ false
    → any p ys ≡ false
    → any p (xs ++ ys) ≡ false
any-append p [] ys h h' = h'
any-append p (x ∷ xs) ys h h' = let ih = any-append p xs ys in ground arith

item_messages-append :
    (xs ys : List Item) (ms ns : List Message)
    → item_messages xs ≡ ok ms
    → item_messages ys ≡ ok ns
    → item_messages (xs ++ ys) ≡ ok (ms ++ ns)
unfolding item_messages
item_messages-append [] ys ms ns h h' =
    h' ∙ ap (λ (rs : List Message). ok (rs ++ ns)) (ok_injective [] ms h)
item_messages-append (x ∷ xs) ys ms ns h h' =
    let (m, a, h1) = bind-ok (item_message x) _ ms h in
    let (rest, b, h2) = bind-ok (item_messages xs) _ ms h1 in
    let ih = item_messages-append xs ys rest ns b h' in
    rw (a, ih) (ap (λ (rs : List Message). ok (rs ++ ns)) (ok_injective (m ∷ rest) ms h2))

-- Only messages, which are rebuilt as `ms`.
record Shows (s : Store) (ms : List Message) : Type 0 where
  ascending : Ascending s.items
  plain : any is_summary s.items ≡ false
  shown : item_messages s.items ≡ ok ms

Pushed-Shows :
    (now : Text) (m : Message) (s s' : Store) (ms : List Message)
    → Storable m
    → Shows s ms
    → Pushed now m s s'
    → Shows s' (ms ++ m ∷ [])
unfolding new_row item_messages item_message is_summary
Pushed-Shows now m s s' ms st sh p =
    let new : Item = record { ordinal = p.ordinal; entry = message (new_row now m s) } in
    let one : item_messages (new ∷ []) ≡ ok (m ∷ []) =
      rw (reconstruct-message_row _ _ now m st) refl in
    record {
      ascending = p.ascending;
      plain =
          subst (λ is. any is_summary is ≡ false) (sym p.items)
            (any-append is_summary s.items (new ∷ []) sh.plain refl);
      shown =
          subst (λ is. item_messages is ≡ ok (ms ++ m ∷ [])) (sym p.items)
            (item_messages-append s.items (new ∷ []) ms (m ∷ []) sh.shown one);
    }

push_all-Shows :
    (now : Text) (ms : List Message) (s : Store) (before : List Message)
    → All Storable ms
    → Shows s before
    → (s' : Store) × (push_all now ms s ≡ ok s') × Shows s' (before ++ ms)
unfolding push_all
push_all-Shows now [] s before st sh = (s, refl, subst (Shows s) (sym (append-nil before)) sh)
push_all-Shows now (m ∷ ms) s before (st, sts) sh =
    let (s1, a, p) = push_message-Pushed now m none s sh.ascending in
    let (s2, b, sh2) =
      push_all-Shows now ms s1 (before ++ m ∷ []) sts (Pushed-Shows now m s s1 before st sh p) in
    (s2, rw a b, subst (Shows s2) (append_assoc before (m ∷ []) ms) sh2)

module _ (path_of : Text → Option Text) where
  -- Messages that are pushed one after the other to an empty context, each with valid calls, are
  -- all stored, and are assembled behind the system prompt as they were and in their order.
  pub push_all-assemble_sync :
      (now prompt : Text) (ms : List Message) (s : Store)
      → s.items ≡ []
      → All Storable ms
      → (s' : Store) × (push_all now ms s ≡ ok s')
        × (assemble_sync path_of prompt s' ≡ ok (system prompt ∷ ms))
  unfolding assemble_sync system_content Ascending item_messages kitaebot.Lcm.Store.Ordered.Span
  push_all-assemble_sync now prompt ms s empty st =
      let nothing : 0 ≤ 0 = omega arith in
      let start : Shows s [] = record {
        ascending = subst Ascending (sym empty) (0, nothing);
        plain = subst (λ is. any is_summary is ≡ false) (sym empty) refl;
        shown = subst (λ is. item_messages is ≡ ok []) (sym empty) refl;
      } in
      let (s', a, sh) = push_all-Shows now ms s [] st start in (s', a, rw (sh.plain, sh.shown) refl)
