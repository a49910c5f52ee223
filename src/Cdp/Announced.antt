-- ===== src/Cdp/Announced.antt =====
-- A domain is not marked as enabled unless its command was sent (cdp.js).
use open_webbridge.Base.{
  ◌≡◌, refl, sym, ap, ◌∙◌, ◌⊎◌, inl, inr, Text, lit, text_keys, contains, contains-add, add, lookup,
  lookup-insert, beq_refl, is_some, true, false, or_else, List, [], ◌∷◌, ◌++◌, Result, ok, err, In,
  In-append_left, In-append_right, here, Bool-cases, arith, if◌then◌else◌, text_eq, text_eq_iff,
}
use mathlib.Core.List.{append_assoc, append-nil}
use open_webbridge.Cdp.{
  Target, target_keys, Call, command, Cdp, AttachAnswer, attached_now, already_attached, refused,
  attach_call, on_detach, raw_send, enable_of, is_enabled, ensure_entry, mark, enable_domain,
  is_tab, attach, and_then, ensure_domain,
}

module _ (t : Target) (domain : Text) where
  -- Between the two states the debugger was called, and if the domain is marked in the second, it was
  -- marked in the first or its command is among the calls.
  abbrev pub IsAnnounced : Cdp → Cdp → Type 0
  IsAnnounced s r =
      (calls : List Call) × (r.sent ≡ s.sent ++ calls)
      × ((is_enabled t domain r ≡ false)
          ⊎ ((is_enabled t domain s ≡ true) ⊎ In (command t (enable_of domain)) calls))

  IsAnnounced-trans : (a b c : Cdp) → IsAnnounced a b → IsAnnounced b c → IsAnnounced a c
  IsAnnounced-trans a b c (xs, e, h) (ys, f, k) = (
    xs ++ ys,
    f ∙ ap (λ l. l ++ ys) e ∙ append_assoc a.sent xs ys,
    elim k [
      | inl off ↦ inl off
      | inr on ↦ inr (elim on [
        | inr m ↦ inr (In-append_right xs m)
        | inl was ↦ elim h [
          | inl off ↦ cc
          | inr o ↦ elim o [ inl w ↦ inl w | inr m ↦ inr (In-append_left ys m) ]
        ]
      ])
    ],
  )

  same-IsAnnounced :
      (s r : Cdp) (calls : List Call)
      → r.sent ≡ s.sent ++ calls
      → is_enabled t domain r ≡ is_enabled t domain s
      → IsAnnounced s r
  same-IsAnnounced s r calls e h = (
    calls,
    e,
    elim (Bool-cases (is_enabled t domain s)) [ inl on ↦ inr (inl on) | inr off ↦ inl (h ∙ off) ],
  )

  is_enabled-entry : (s : Cdp) → is_enabled t domain (ensure_entry t s) ≡ is_enabled t domain s
  unfolding is_enabled ensure_entry
  is_enabled-entry s =
      rw (lookup-insert t t (or_else (lookup t s.enabled) []) s.enabled, beq_refl t) refl

  -- Marking another domain of the target changes nothing for this one.
  is_enabled-other :
      (d : Text) (s : Cdp)
      → text_eq d domain ≡ false
      → is_enabled t domain (mark t d s) ≡ is_enabled t domain s
  unfolding mark is_enabled
  is_enabled-other d s other = elim (Bool-cases (is_some (lookup t s.enabled))) [
    | inr e ↦ rw e refl
    | inl e ↦
        let domains = or_else (lookup t s.enabled) [] in
        rw
          (
            e,
            lookup-insert t t (add d domains) s.enabled,
            beq_refl t,
            contains-add d domain domains,
            other,
          )
          refl
  ]

  sent-mark : (d : Text) (s : Cdp) → (mark t d s).sent ≡ s.sent
  unfolding mark
  sent-mark d s = ground arith

  enable_domain-IsAnnounced : (d : Text) (s : Cdp) → IsAnnounced s (enable_domain [] t d s)
  unfolding enable_domain on_detach raw_send
  enable_domain-IsAnnounced d s = elim (Bool-cases (is_enabled t d (ensure_entry t s))) [
    | inl e ↦ rw e (
        same-IsAnnounced s (ensure_entry t s) [] (ap (λ l. l) (sym (append-nil s.sent)))
          (is_enabled-entry s))
    | inr e ↦ rw e (elim (Bool-cases (text_eq d domain)) [
      | inl same ↦
          let q : d ≡ domain = (text_eq_iff d domain).0 same in
          (
            command t (enable_of d) ∷ [],
            sent-mark d _,
            inr (inr (here (ap (λ x. command t (enable_of x)) (sym q)))),
          )
      | inr other ↦
          same-IsAnnounced s (mark t d (raw_send t (enable_of d) (ensure_entry t s)))
            (command t (enable_of d) ∷ []) (sent-mark d _)
            (is_enabled-other d (raw_send t (enable_of d) (ensure_entry t s)) other
              ∙ is_enabled-entry s)
    ])
  ]

  attach-IsAnnounced : (answer : AttachAnswer) (s : Cdp) → IsAnnounced s (attach answer [] t s).1
  unfolding attach is_enabled
  attach-IsAnnounced answer s = elim (Bool-cases (contains t s.attached)) [
    | inl e ↦ rw e (same-IsAnnounced s s [] (sym (append-nil s.sent)) refl)
    | inr e ↦ rw e (fresh answer)
  ]
    where
      called : Cdp
      called = record s { sent = s.sent ++ attach_call t ∷ [] }

      held : Cdp
      held = record called { attached = add t s.attached }

      opened : IsAnnounced s (if is_tab t then enable_domain [] t (lit "Page") held else held)
      opened = elim (Bool-cases (is_tab t)) [
        | inl e ↦ rw e (
            IsAnnounced-trans s held (enable_domain [] t (lit "Page") held)
              (same-IsAnnounced s held (attach_call t ∷ []) refl refl)
              (enable_domain-IsAnnounced (lit "Page") held))
        | inr e ↦ rw e (same-IsAnnounced s held (attach_call t ∷ []) refl refl)
      ]

      fresh :
          (a : AttachAnswer)
          → IsAnnounced s
              (elim a as (λ _. Result Text (Unit {0}) × Cdp) [
                | attached_now ↦
                    (ok tt, if is_tab t then enable_domain [] t (lit "Page") held else held)
                | already_attached ↦
                    (ok tt, if is_tab t then enable_domain [] t (lit "Page") held else held)
                | refused why ↦ (err why, called)
              ]).1
      fresh attached_now = opened
      fresh already_attached = opened
      fresh (refused why) = same-IsAnnounced s called (attach_call t ∷ []) refl refl

  then_enabled :
      (s : Cdp) (r : Result Text (Unit {0}) × Cdp)
      → IsAnnounced s r.1
      → IsAnnounced s (and_then r (enable_domain [] t domain)).1
  then_enabled s (ok u, r) h =
      IsAnnounced-trans s r (enable_domain [] t domain r) h (enable_domain-IsAnnounced domain r)
  then_enabled s (err why, r) h = h

  pub ensure_domain-IsAnnounced :
      (answer : AttachAnswer) (s : Cdp) → IsAnnounced s (ensure_domain answer [] [] t domain s).1
  unfolding ensure_domain
  ensure_domain-IsAnnounced answer s =
      then_enabled s (attach answer [] t s) (attach-IsAnnounced answer s)
