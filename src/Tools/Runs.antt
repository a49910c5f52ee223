-- ===== src/Tools/Runs.antt =====
-- Total correctness of tools: that they return, and which commands they send.
use open_webbridge.Base.{
  ℕ, ◌≡◌, refl, sym, ap, subst, ◌∙◌, inl, inr, Text, Bool, true, false, Bool-cases, some, List, [],
  ◌∷◌, ◌++◌, Result, ok, err, contains, arith,
}
use mathlib.Core.List.{append_assoc, append-nil}
use open_webbridge.Cdp.{
  Cdp, Target, target_keys, AttachAnswer, attached_now, already_attached, refused, attach, and_then,
}
use open_webbridge.Cdp
use open_webbridge.Sessions.{get_active_tab, session_of}
use open_webbridge.Tools.Page.{
  target_in, active_tab_of, target_of, Command, method_of, Reply, Debugger, Fault, debugger_error,
  is_thrown, Env, Tool, go_on, recover, catch, ◌>>=◌, ◌>>◌, give, with_cdp, attach_to, deliver, ask,
}

abbrev pub Refuses : AttachAnswer → Type 0
Refuses a = (why : Text) × (a ≡ refused why)

abbrev pub is_refusal : AttachAnswer → Bool
is_refusal (refused _) = true
is_refusal attached_now = false
is_refusal already_attached = false

-- From every state the tool returns, and the commands that it has sent are `cs`, in this order.
abbrev pub Sends : {F W A : Type 0} → Tool F W A → List (Target × Command F) → Type 0
Sends {F} {W} {A} m cs =
    (e : Env F W) → (a : A) × (e' : Env F W) × (m e ≡ (ok a, e')) × (e'.log ≡ e.log ++ cs)

pub give-Sends : {F W A : Type 0} (a : A) → Sends {F = F} {W = W} (give a) []
give-Sends a e = (a, e, refl, sym (append-nil e.log))

pub bind-Sends :
    {F W A B : Type 0} (m : Tool F W A) (f : A → Tool F W B) (cs ds : List (Target × Command F))
    → Sends m cs
    → ((a : A) → Sends (f a) ds)
    → Sends (m >>= f) (cs ++ ds)
bind-Sends m f cs ds h k e =
    let (a, e1, returns, sent) = h e in
    let (b, e2, returns', sent') = k a e1 in
    (
      b,
      e2,
      ap (go_on f) returns ∙ returns',
      sent' ∙ ap (λ l. l ++ ds) sent ∙ append_assoc e.log cs ds,
    )

pub then-Sends :
    {F W A B : Type 0} (m : Tool F W A) (k : Tool F W B) (cs ds : List (Target × Command F))
    → Sends m cs
    → Sends k ds
    → Sends (m >> k) (cs ++ ds)
then-Sends m k cs ds h g = bind-Sends m (λ _. k) cs ds h (λ _. g)

-- The state once the session of a call is looked up.
abbrev pub opened : {F W : Type 0} → Text → Env F W → Env F W
opened session e = record e { bridge = (get_active_tab session e.bridge).1 }

pub active_tab_of-ok :
    {F W : Type 0} (session : Text) (n : ℕ) (e : Env F W)
    → (session_of session e.bridge).active_tab ≡ some n
    → active_tab_of session e ≡ (ok n, opened session e)
unfolding active_tab_of get_active_tab
active_tab_of-ok session n e h = rw (active_tab_of, h) refl

pub target_of-ok :
    {F W : Type 0} (session frame : Text) (n : ℕ) (e : Env F W)
    → (session_of session e.bridge).active_tab ≡ some n
    → target_of session frame e ≡ (ok (target_in frame n), opened session e)
unfolding target_of
target_of-ok session frame n e h =
    ap (go_on (λ n. give (target_in frame n))) (active_tab_of-ok session n e h)

-- A step after which a tool returned has returned.
pub go_on-eq-ok :
    {F W A B : Type 0} (f : A → Tool F W B) (r : Result Fault A × Env F W) (b : B) (e' : Env F W)
    → go_on f r ≡ (ok b, e')
    → (a : A) × (e1 : Env F W) × (r ≡ (ok a, e1)) × (f a e1 ≡ (ok b, e'))
go_on-eq-ok f (ok a, e1) b e' h = (a, e1, refl, h)
go_on-eq-ok f (err x, e1) b e' h = cc

-- From no state does the tool hang: it returns or throws.
abbrev pub Ends : {F W A : Type 0} → Tool F W A → Type 0
Ends {F} {W} m = (e : Env F W) (x : Fault) (e' : Env F W) → m e ≡ (err x, e') → is_thrown x ≡ true

pub give-Ends : {F W A : Type 0} (a : A) → Ends {F = F} {W = W} (give a)
give-Ends a e x e' h = cc

go_on-throws :
    {F W A B : Type 0} (f : A → Tool F W B) (r : Result Fault A × Env F W) (x : Fault)
    (e' : Env F W)
    → ((y : Fault) (e1 : Env F W) → r ≡ (err y, e1) → is_thrown y ≡ true)
    → ((a : A) → Ends (f a))
    → go_on f r ≡ (err x, e')
    → is_thrown x ≡ true
go_on-throws f (ok a, e) x e' h k g = k a e x e' g
go_on-throws f (err y, e) x e' h k g =
    let same : y ≡ x = cc g in subst (λ z. is_thrown z ≡ true) same (h y e refl)

pub bind-Ends :
    {F W A B : Type 0} (m : Tool F W A) (f : A → Tool F W B)
    → Ends m
    → ((a : A) → Ends (f a))
    → Ends (m >>= f)
bind-Ends m f h k e x e' g = go_on-throws f (m e) x e' (h e) k g

-- A tool that ends, and a way out that returns.
pub recover-ok :
    {F W A : Type 0} (r : Result Fault A × Env F W) (a : A)
    → ((x : Fault) (e : Env F W) → r ≡ (err x, e) → is_thrown x ≡ true)
    → (b : A) × (recover (give a) r ≡ (ok b, r.1))
recover-ok (ok b, e) a h = (b, refl)
recover-ok (err x, e) a h = (a, rw (h x e refl) refl)

module _ {F W : Type 0} (debugger : Debugger F W) where
  -- The debugger can be attached, whatever state the browser is in.
  abbrev pub Attaches : Type 0
  Attaches = (w : W) (t : Target) → is_refusal (debugger.attach_answer w t) ≡ false

  -- A command is acknowledged, by an answer or an error.
  abbrev pub Acknowledges : Command F → Type 0
  Acknowledges c = (w : W) (t : Target) → debugger.is_silent w t c ≡ false

  -- A command is answered without an error.
  abbrev pub Answers : Command F → Type 0
  Answers c =
      (w : W) (t : Target)
      → (r : Reply F) × (debugger.is_silent w t c ≡ false) × ((debugger.reply w t c).0 ≡ ok r)

  attach-ok :
      (a : AttachAnswer) (t : Target) (s : Cdp) → is_refusal a ≡ false → (attach a [] t s).0 ≡ ok tt
  unfolding attach
  attach-ok a t s h = elim (Bool-cases (contains t s.attached)) [
    | inl e ↦ rw e refl
    | inr e ↦ rw e (ground arith)
  ]

  and_then-ok :
      (r : Result Text (Unit {0}) × Cdp) (f : Cdp → Cdp) → r.0 ≡ ok tt → (and_then r f).0 ≡ ok tt
  and_then-ok (ok u, s) f h = refl
  and_then-ok (err why, s) f h = h

  send-ok :
      (a : AttachAnswer) (t : Target) (m : Text) (s : Cdp)
      → is_refusal a ≡ false
      → (Cdp.send a [] t m s).0 ≡ ok tt
  unfolding Cdp.send
  send-ok a t m s h = and_then-ok (attach a [] t s) _ (attach-ok a t s h)

  abbrev with_debugger : Env F W → Cdp → Env F W
  with_debugger e s = record e { bridge = record e.bridge { cdp = s } }

  with_cdp-ok :
      {A : Type 0} (r : Result Text A × Cdp) (e : Env F W) (a : A)
      → r.0 ≡ ok a
      → with_cdp r e ≡ (ok a, with_debugger e r.1)
  with_cdp-ok (ok b, s) e a h = ground arith
  with_cdp-ok (err why, s) e a h = cc

  pub attach_to-Sends : (t : Target) → Attaches → Sends (attach_to debugger t) []
  unfolding attach_to
  attach_to-Sends t h e =
      let r = attach (debugger.attach_answer e.bridge.browser t) [] t e.bridge.cdp in
      (
        tt,
        with_debugger e r.1,
        with_cdp-ok r e tt (
            attach-ok (debugger.attach_answer e.bridge.browser t) t e.bridge.cdp
              (h e.bridge.browser t)),
        sym (append-nil e.log),
      )

  deliver-Sends :
      (t : Target) (c : Command F) → Answers c → Sends (deliver debugger t c) ((t, c) ∷ [])
  unfolding deliver
  deliver-Sends t c k e =
      let (r, heard, answered) = k e.bridge.browser t in
      (
        r,
        record e {
          bridge = record e.bridge { browser = (debugger.reply e.bridge.browser t c).1 };
          log = e.log ++ (t, c) ∷ [];
        },
        rw (deliver, heard, answered) refl,
        refl,
      )

  pub ask-Sends :
      (t : Target) (c : Command F) → Attaches → Answers c → Sends (ask debugger t c) ((t, c) ∷ [])
  unfolding ask
  ask-Sends t c h k e =
      let a = debugger.attach_answer e.bridge.browser t in
      let r = Cdp.send a [] t (method_of c) e.bridge.cdp in
      let (b, e', returns, sent) = deliver-Sends t c k (with_debugger e r.1) in
      (
        b,
        e',
        ap (go_on (λ _. deliver debugger t c))
              (with_cdp-ok r e tt (send-ok a t (method_of c) e.bridge.cdp (h e.bridge.browser t)))
            ∙ returns,
        sent,
      )

  with_cdp-throws :
      {A : Type 0} (r : Result Text A × Cdp) (e : Env F W) (x : Fault) (e' : Env F W)
      → with_cdp r e ≡ (err x, e')
      → is_thrown x ≡ true
  with_cdp-throws (ok a, s) e x e' h = cc
  with_cdp-throws (err why, s) e x e' h =
      let same : debugger_error why ≡ x = cc h in subst (λ z. is_thrown z ≡ true) same refl

  deliver-Ends : (t : Target) (c : Command F) → Acknowledges c → Ends (deliver debugger t c)
  unfolding deliver
  deliver-Ends t c k e x e' h = grind (arith, k e.bridge.browser t)

  pub ask-Ends : (t : Target) (c : Command F) → Acknowledges c → Ends (ask debugger t c)
  unfolding ask
  ask-Ends t c k e x e' h =
      go_on-throws (λ _. deliver debugger t c)
        (with_cdp
          (Cdp.send (debugger.attach_answer e.bridge.browser t) [] t (method_of c) e.bridge.cdp) e)
        x e' (with_cdp-throws _ e) (λ _. deliver-Ends t c k) h

  pub log-deliver :
      (t : Target) (c : Command F) (e : Env F W)
      → (deliver debugger t c e).1.log ≡ e.log ++ (t, c) ∷ []
  unfolding deliver
  log-deliver t c e = ground arith

  -- A command that is acknowledged is sent, and its error can be dropped.
  pub dropped-Sends :
      (t : Target) (c : Command F) (a : Reply F)
      → Attaches
      → Acknowledges c
      → Sends (catch (ask debugger t c) (give a)) ((t, c) ∷ [])
  unfolding ask
  dropped-Sends t c a h k e =
      let answer = debugger.attach_answer e.bridge.browser t in
      let r = Cdp.send answer [] t (method_of c) e.bridge.cdp in
      let sent =
        ap (go_on (λ _. deliver debugger t c)) (
          with_cdp-ok r e tt
            (send-ok answer t (method_of c) e.bridge.cdp (h e.bridge.browser t))) in
      let (b, back) = recover-ok (ask debugger t c e) a (ask-Ends t c k e) in
      (
        b,
        (ask debugger t c e).1,
        back,
        ap (λ p. p.1.log) sent ∙ log-deliver t c (with_debugger e r.1),
      )
