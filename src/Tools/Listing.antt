-- ===== src/Tools/Listing.antt =====
-- The list of the frames (frames.js).
use open_webbridge.Base.{
  ℕ, ◌≡◌, ◌⊎◌, refl, sym, ap, ◌∙◌, inl, inr, Text, text_keys, text_eq, text_eq_iff, contains, map,
  In, here, there, true, false, not, ◌||◌, Bool-cases, List, [], ◌∷◌, arith,
}
use open_webbridge.Annotations.Store.Shots.{Distinct}
use open_webbridge.Tools.Reading.{Frame, belongs, frames_of}

abbrev pub ids_of : List Frame → List Text
ids_of = map (λ f. f.id)

ids_of-In :
    (id : Text) (fs : List Frame)
    → contains id (ids_of fs) ≡ true
    → (f : Frame) × In f fs × (f.id ≡ id)
unfolding contains
ids_of-In id [] h = cc
ids_of-In id (f ∷ fs) h = elim (Bool-cases (text_eq f.id id)) [
  | inl e ↦ (f, here refl, (text_eq_iff f.id id).0 e)
  | inr e ↦ let (g, m, q) = ids_of-In id fs (ground (arith, e)) in (g, there m, q)
]

-- Each frame that is listed belongs to the tab, was among those given, and is none that was seen.
abbrev IsListed : ℕ → List Text → List Frame → Frame → Type 0
IsListed n seen fs g = (belongs n g ≡ true) × (contains g.id seen ≡ false) × In g fs

taken-IsListed :
    (n : ℕ) (seen : List Text) (f : Frame) (fs rest : List Frame) (g : Frame)
    → not (belongs n f) || contains f.id seen ≡ false
    → (In g rest → IsListed n (f.id ∷ seen) fs g)
    → In g (f ∷ rest)
    → IsListed n seen (f ∷ fs) g
unfolding contains
taken-IsListed n seen f fs rest g e later (here q) =
    let b : belongs n f ≡ true = ground (arith, e) in
    let s : contains f.id seen ≡ false = ground (arith, e) in
    (ap (belongs n) q ∙ b, ap (λ (x : Frame). contains x.id seen) q ∙ s, here q)
taken-IsListed n seen f fs rest g e later (there k) =
    let (b, s, l) = later k in (b, ground (arith, s), there l)

frames_of-IsListed :
    (n : ℕ) (seen : List Text) (fs : List Frame) (g : Frame)
    → In g (frames_of n seen fs)
    → IsListed n seen fs g
unfolding frames_of
frames_of-IsListed n seen [] g m = elim m [ ]
frames_of-IsListed n seen (f ∷ fs) g m =
    elim (Bool-cases (not (belongs n f) || contains f.id seen)) [
      | inl e ↦ let (b, s, k) = frames_of-IsListed n seen fs g (rw e at m) in (b, s, there k)
      | inr e ↦
          taken-IsListed n seen f fs (frames_of n (f.id ∷ seen) fs) g e
            (frames_of-IsListed n (f.id ∷ seen) fs g) (rw e at m)
    ]

new_id :
    (id : Text) (seen : List Text) (n : ℕ) (fs rest : List Frame)
    → ((g : Frame) → In g rest → IsListed n (id ∷ seen) fs g)
    → contains id (ids_of rest) ≡ false
unfolding contains
new_id id seen n fs rest listed = elim (Bool-cases (contains id (ids_of rest))) [
  | inr fresh ↦ fresh
  | inl twice ↦
      let (g, m, q) = ids_of-In id rest twice in
      let (b, s, k) = listed g m in ground (arith, s, (text_eq_iff id g.id).1 (sym q))
]

frames_of-Distinct :
    (n : ℕ) (seen : List Text) (fs : List Frame) → Distinct (ids_of (frames_of n seen fs))
unfolding frames_of
frames_of-Distinct n seen [] = tt
frames_of-Distinct n seen (f ∷ fs) = elim (Bool-cases (not (belongs n f) || contains f.id seen)) [
  | inl e ↦ rw e (frames_of-Distinct n seen fs)
  | inr e ↦ rw e (
    new_id f.id seen n fs (frames_of n (f.id ∷ seen) fs) (frames_of-IsListed n (f.id ∷ seen) fs),
    frames_of-Distinct n (f.id ∷ seen) fs,
  )
]

-- What is left of a frame that was seen or listed, where one more was looked at.
looked_at :
    (id other : Text) (seen ids : List Text)
    → (contains id (other ∷ seen) ≡ true) ⊎ (contains id ids ≡ true)
    → (contains id seen ≡ true) ⊎ (contains id (other ∷ ids) ≡ true)
unfolding contains
looked_at id other seen ids (inr h) = inr (ground (arith, h))
looked_at id other seen ids (inl h) = elim (Bool-cases (text_eq other id)) [
  | inl e ↦ inr (ground (arith, e))
  | inr e ↦ inl (ground (arith, e, h))
]

frames_of_complete :
    (n : ℕ) (seen : List Text) (fs : List Frame) (f : Frame)
    → In f fs
    → belongs n f ≡ true
    → (contains f.id seen ≡ true) ⊎ (contains f.id (ids_of (frames_of n seen fs)) ≡ true)
unfolding frames_of contains
frames_of_complete n seen [] f m b = elim m [ ]
frames_of_complete n seen (x ∷ fs) f (here q) b =
    elim (Bool-cases (not (belongs n x) || contains x.id seen)) [
      | inl e ↦
          let bx : belongs n x ≡ true = sym (ap (belongs n) q) ∙ b in
          let sx : contains x.id seen ≡ true = ground (arith, e, bx) in
          inl (ap (λ (y : Frame). contains y.id seen) q ∙ sx)
      | inr e ↦
          inr (rw e (ground (arith, (text_eq_iff x.id f.id).1 (sym (ap (λ (y : Frame). y.id) q)))))
    ]
frames_of_complete n seen (x ∷ fs) f (there k) b =
    elim (Bool-cases (not (belongs n x) || contains x.id seen)) [
      | inl e ↦ rw e (frames_of_complete n seen fs f k b)
      | inr e ↦ rw e (
          looked_at f.id x.id seen (ids_of (frames_of n (x.id ∷ seen) fs))
            (frames_of_complete n (x.id ∷ seen) fs f k b))
    ]

-- The list of the frames of a tab has no id twice; each frame in it is one of the targets of the
-- debugger, and is of the tab or an iframe, of whichever tab; and the id of every such target is in it.
pub frames_of-exact :
    (n : ℕ) (targets : List Frame)
    → Distinct (ids_of (frames_of n [] targets))
      × ((g : Frame) → In g (frames_of n [] targets) → In g targets × (belongs n g ≡ true))
      × ((f : Frame)
          → In f targets
          → belongs n f ≡ true
          → contains f.id (ids_of (frames_of n [] targets)) ≡ true)
unfolding contains
frames_of-exact n targets = (
  frames_of-Distinct n [] targets,
  λ g m. let (b, s, k) = frames_of-IsListed n [] targets g m in (k, b),
  λ f m b. elim (frames_of_complete n [] targets f m b) [ inl h ↦ cc | inr h ↦ h ],
)
