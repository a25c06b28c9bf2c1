-- ===== src/Config/Volumes/Reading.antt =====
-- src/config/volumes.rs: what a composition that was read says of the document.
use mathlib.Core.Path.{subst}
use vivarium.Prelude.{
  ◌≡◌, refl, sym, ap, ◌∙◌, ◌⊎◌, inl, inr, Option, none, some, List, [], ◌∷◌, Bytes, codes, map,
  arith, ok, ok-injective, Result-cases,
}
use vivarium.Config.Volumes.{
  Composition, Value, Item, text_value, array_value, other_value, text_item, table_item, other_item,
  get, value_text, string_of, strings_of, item_texts, or_default, nonempty, parse_composition,
}

-- A key that is absent, or holds a text.
abbrev pub IsText : Option Value → Option Bytes → Type 0
IsText held read =
    ((held ≡ none) × (read ≡ none))
    ⊎ ((text : Bytes) × (held ≡ some (text_value text)) × (read ≡ some text))

-- A key that is absent, or holds an array of texts and nothing else.
abbrev pub IsTexts : Option Value → List Bytes → Type 0
IsTexts held read = ((held ≡ none) × (read ≡ [])) ⊎ (held ≡ some (array_value (map text_item read)))

string_of-IsText :
    (key : Bytes) (held : Option Value) (read : Option Bytes)
    → string_of value_text key held ≡ ok read
    → IsText held read
string_of-IsText key none read h = inl (refl, sym (ok-injective none read h))
string_of-IsText key (some (text_value text)) read h =
    inr (text, refl, sym (ok-injective (some text) read h))
string_of-IsText key (some (array_value items)) read h = cc
string_of-IsText key (some other_value) read h = cc

item_texts-map :
    (key : Bytes) (items : List Item) (read : List Bytes)
    → item_texts key items ≡ ok read
    → items ≡ map text_item read
item_texts-map key [] read h = ap (map text_item) (ok-injective [] read h)
item_texts-map key (text_item text ∷ more) read h = elim (Result-cases (item_texts key more)) [
  | inr (why, e) ↦ absurd (ground (arith, e, h))
  | inl (texts, e) ↦
      let same : text ∷ texts ≡ read = ground (arith, e, h) in
      ap (◌∷◌ (text_item text)) (item_texts-map key more texts e) ∙ ap (map text_item) same
]
item_texts-map key (table_item cells ∷ more) read h = cc
item_texts-map key (other_item ∷ more) read h = cc

strings_of-IsTexts :
    (key : Bytes) (held : Option Value) (read : List Bytes)
    → strings_of key held ≡ ok read
    → IsTexts held read
strings_of-IsTexts key none read h = inl (refl, sym (ok-injective [] read h))
strings_of-IsTexts key (some (array_value items)) read h =
    inr (ap (λ found. some (array_value found)) (item_texts-map key items read h))
strings_of-IsTexts key (some (text_value text)) read h = cc
strings_of-IsTexts key (some other_value) read h = cc

-- A composition is read only from keys that are absent or of the type that is written there, and
-- it is what they hold; an empty `extends` is none.
pub parse_composition-ok :
    (root : List (Bytes × Value)) (composition : Composition)
    → parse_composition root ≡ ok composition
    → (image : Option Bytes) × (extends : Option Bytes) × IsText (get root (codes "image")) image
      × (composition.image ≡ or_default image)
      × IsTexts (get root (codes "pieces")) composition.pieces
      × IsText (get root (codes "extends")) extends
      × (composition.extends ≡ nonempty extends)
unfolding parse_composition
parse_composition-ok root composition h =
    elim (Result-cases (string_of value_text (codes "image") (get root (codes "image")))) [
      | inr (why, e) ↦ absurd (ground (arith, e, h))
      | inl (image, e) ↦
          elim (Result-cases (strings_of (codes "pieces") (get root (codes "pieces")))) [
            | inr (why, f) ↦ absurd (ground (arith, e, f, h))
            | inl (pieces, f) ↦
                elim (Result-cases
                  (string_of value_text (codes "extends") (get root (codes "extends")))) [
                    | inr (why, g) ↦ absurd (ground (arith, e, f, g, h))
                    | inl (extends, g) ↦
                        let same : record {
                          image = or_default image;
                          pieces = pieces;
                          extends = nonempty extends;
                        }
                            ≡ composition =
                          ground (arith, e, f, g, h) in
                        (
                          image,
                          extends,
                          string_of-IsText (codes "image") _ image e,
                          ap (λ c. c.image) (sym same),
                          subst (IsTexts (get root (codes "pieces"))) (ap (λ c. c.pieces) same)
                              (strings_of-IsTexts (codes "pieces") _ pieces f),
                          string_of-IsText (codes "extends") _ extends g,
                          ap (λ c. c.extends) (sym same),
                        )
                  ]
          ]
    ]
