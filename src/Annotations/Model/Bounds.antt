-- ===== src/Annotations/Model/Bounds.antt =====
-- The caps on what a page reports and the range of a wait (`sanitizeElement`, `makeRecord`,
-- `clampWait` of model.js).
use open_webbridge.Base.{
  ℕ, zero, suc, ◌+◌, ◌≤◌, ◌≡◌, ◌⊎◌, inl, inr, refl, Text, text_keys, trim, length-trim,
  length-to_lower, is_empty, length, length-map, take, All, map, insert, length-insert, Table, not,
  ◌&&◌, Option, none, some, List, [], ◌∷◌, Bool-cases, arith, text_eq,
}
use open_webbridge.Annotations.Record.{Float, Element, RawElement, RawInput}
use open_webbridge.Annotations.Model.{
  clip, sanitize_comment, sanitize_selectors, sanitize_element, out_attrs, make_record, clamp_wait,
  max_comment, max_wait_ms,
}

length-take {ℓ} : {A : Type ℓ} (n : ℕ) (xs : List A) → length (take n xs) ≤ n
length-take zero xs = omega arith
length-take (suc n) [] = omega arith
length-take (suc n) (x ∷ xs) = omega (arith, length-take n xs)

length-clip : (s : Option Text) (max : ℕ) → length (clip s max) ≤ max
unfolding clip
length-clip none max = omega arith
length-clip (some s) max = ground (arith, length-take max s)

All-clip :
    (max : ℕ) (xs : List (Option Text)) → All (λ s. length s ≤ max) (map (λ a. clip a max) xs)
All-clip max [] = tt
All-clip max (x ∷ xs) = (length-clip x max, All-clip max xs)

-- One attribute within its caps.
abbrev pub AttrFits : Text × Text → Type 0
AttrFits (k, v) = (length k ≤ 40) × (length v ≤ 200)

insert-fits :
    (k v : Text) (m : Table Text Text)
    → length k ≤ 40
    → length v ≤ 200
    → All AttrFits m
    → All AttrFits (insert k v m)
unfolding insert
insert-fits k v [] hk hv h = ((hk, hv), tt)
insert-fits k v ((j, w) ∷ m) hk hv h = elim (Bool-cases (text_eq j k)) [
  | inl e ↦ rw e ((h.0.0, hv), h.1)
  | inr e ↦ rw e (h.0, insert-fits k v m hk hv h.1)
]

out_attrs-fits :
    (out : Table Text Text) (raw : Table Text (Option Text))
    → All AttrFits out
    → All AttrFits (out_attrs out raw) × (length (out_attrs out raw) ≤ length out + length raw)
unfolding out_attrs
out_attrs-fits out [] h = (h, omega arith)
out_attrs-fits out ((k, v) ∷ rest) h =
    elim (Bool-cases (not (is_empty (trim (clip (some k) 40))) && not (is_empty (clip v 200)))) [
      | inl e ↦
          let key_fits : length (trim (clip (some k) 40)) ≤ 40 =
            omega (arith, length-trim (clip (some k) 40), length-clip (some k) 40) in
          let ih = out_attrs-fits (insert (trim (clip (some k) 40)) (clip v 200) out) rest (
            insert-fits (trim (clip (some k) 40)) (clip v 200) out key_fits (length-clip v 200)
              h) in
          rw e (ih.0, omega (arith, ih.1, length-insert (trim (clip (some k) 40)) (clip v 200) out))
      | inr e ↦ let ih = out_attrs-fits out rest h in rw e (ih.0, omega (arith, ih.1))
    ]

-- The caps on a stored element.
pub record ElementFits {F : Type 0} (e : Element F) : Type 0 where
  -- Its capitals are made small after it was cut, and a letter may become two.
  pub tag : length e.tag ≤ 80
  pub role : length e.role ≤ 40
  pub name : length e.name ≤ 200
  pub text : length e.text ≤ 400
  pub selector : length e.selector ≤ 600
  pub selector_kind : length e.selector_kind ≤ 20
  pub css : length e.selectors.css ≤ 600
  pub xpath : length e.selectors.xpath ≤ 600
  pub testid : length e.selectors.testid ≤ 200
  pub aria : length e.selectors.aria ≤ 200
  pub selector_text : length e.selectors.text ≤ 200
  pub attrs : All AttrFits e.attrs
  pub attr_count : length e.attrs ≤ 12
  pub ancestors : All (λ s. length s ≤ 120) e.ancestors
  pub ancestor_count : length e.ancestors ≤ 6

module _ {F : Type 0} (float : Float F) where
  -- Whatever element a page reports, the stored one has a tag of at most 80 units, every other text
  -- within its cap, at most 12 attributes and at most 6 ancestors.
  pub sanitize_element-fits : (e : RawElement F) → ElementFits (sanitize_element float e)
  unfolding sanitize_element sanitize_selectors
  sanitize_element-fits e = record {
    tag = omega (arith, length-to_lower (clip e.tag 40), length-clip e.tag 40);
    role = length-clip e.role 40;
    name = length-clip e.name 200;
    text = length-clip e.text 400;
    selector = length-clip e.selector 600;
    selector_kind = length-clip e.selector_kind 20;
    css = length-clip e.selectors.css 600;
    xpath = length-clip e.selectors.xpath 600;
    testid = length-clip e.selectors.testid 200;
    aria = length-clip e.selectors.aria 200;
    selector_text = length-clip e.selectors.text 200;
    attrs = (out_attrs-fits [] (take 12 e.attrs) tt).0;
    attr_count = omega (arith, (out_attrs-fits [] (take 12 e.attrs) tt).1, length-take 12 e.attrs);
    ancestors = All-clip 120 (take 6 e.ancestors);
    ancestor_count =
        omega (arith, length-map (λ a. clip a 120) (take 6 e.ancestors), length-take 6 e.ancestors);
  }

  -- Whatever a page submits, the record made of it has a comment of at most 4000 units, an address and
  -- a frame address of at most 2000, a title of at most 300, and an element whose tag has at most 80
  -- units and whose other texts, attributes and ancestors are within their caps.
  pub make_record-fits :
      (strip_hash : Text → Option Text) (seq : ℕ) (src : RawInput F) (tab_id : Option ℕ)
      (session stamp : Text)
      → (length (make_record float strip_hash seq src tab_id session stamp).comment ≤ 4000)
        × (length (make_record float strip_hash seq src tab_id session stamp).url ≤ 2000)
        × (length (make_record float strip_hash seq src tab_id session stamp).title ≤ 300)
        × (length (make_record float strip_hash seq src tab_id session stamp).frame_url ≤ 2000)
        × ElementFits (make_record float strip_hash seq src tab_id session stamp).element
  unfolding make_record sanitize_comment
  make_record-fits strip_hash seq src tab_id session stamp = (
    omega (arith, length-trim (clip src.comment max_comment), length-clip src.comment max_comment),
    length-clip src.url 2000,
    length-clip src.title 300,
    elim (Bool-cases src.top_frame) [
      | inl e ↦ simp e (omega arith)
      | inr e ↦ simp e (length-clip src.frame_url 2000)
    ],
    sanitize_element-fits src.element,
  )

-- A wait is 0 or lies between a quarter of a second and the maximum, and one that is in that range
-- is left as it is.
pub clamp_wait_bounds :
    (ms : Option ℕ)
    → ((clamp_wait ms ≡ 0) ⊎ ((250 ≤ clamp_wait ms) × (clamp_wait ms ≤ max_wait_ms)))
      × ((n : ℕ) → ms ≡ some n → 250 ≤ n → n ≤ max_wait_ms → clamp_wait ms ≡ n)
unfolding clamp_wait
clamp_wait_bounds none = (inl refl, λ n e. cc)
clamp_wait_bounds (some n) = (ground arith, λ m e lo hi. ground arith)
