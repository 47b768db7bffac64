-- ===== src/Tests/Headers.antt =====
-- A header map as an association list, which keeps the laws that the responses ask of one.
use pd_edge.Common.{
  List, [], ◌∷◌, true, false, if◌then◌else◌, ◌≡◌, refl, ap, ◌∙◌, Bool-cases, inl, inr,
}
use pd_edge.Common.Bytes.{Text, text_eq, text_eq_iff}
use pd_edge.Http.Http1.Writer.{Fields}
use pd_edge.Http.Http1.Writer.Response.{HeaderMaps}

pub get_all : Fields → Text → List Text
get_all [] name = []
get_all ((key, value) ∷ headers) name =
    let others = get_all headers name in if text_eq key name then value ∷ others else others

remove_key : Fields → Text → Fields
remove_key [] name = []
remove_key ((key, value) ∷ headers) name =
    let others = remove_key headers name in
    if text_eq key name then others else (key, value) ∷ others

pub insert : Fields → Text → Text → Fields
insert headers name value = (name, value) ∷ remove_key headers name

text_eq_refl : (s : Text) → text_eq s s ≡ true
text_eq_refl s = (text_eq_iff s s).1 refl

get_all-remove_key : (headers : Fields) (name : Text) → get_all (remove_key headers name) name ≡ []
unfolding get_all remove_key
get_all-remove_key [] name = refl
get_all-remove_key ((key, old) ∷ headers) name = elim (Bool-cases (text_eq key name)) [
  | inl e ↦ rw e (get_all-remove_key headers name)
  | inr e ↦ rw e (rw e (get_all-remove_key headers name))
]

pub get_all-insert :
    (headers : Fields) (name value : Text) → get_all (insert headers name value) name ≡ value ∷ []
unfolding get_all insert
get_all-insert headers name value =
    rw (text_eq_refl name) (ap (◌∷◌ value) (get_all-remove_key headers name))

get_all-remove_other :
    (headers : Fields) (name other : Text)
    → text_eq name other ≡ false
    → get_all (remove_key headers name) other ≡ get_all headers other
unfolding get_all remove_key
get_all-remove_other [] name other h = refl
get_all-remove_other ((key, old) ∷ headers) name other h = elim (Bool-cases (text_eq key name)) [
  | inl e ↦
      let k : key ≡ name = (text_eq_iff key name).0 e in
      let f : text_eq key other ≡ false = ap (λ k. text_eq k other) k ∙ h in
      rw e (rw f (get_all-remove_other headers name other h))
  | inr e ↦ rw e (rw (get_all-remove_other headers name other h) refl)
]

pub get_all-insert_other :
    (headers : Fields) (name value other : Text)
    → text_eq name other ≡ false
    → get_all (insert headers name value) other ≡ get_all headers other
unfolding get_all insert
get_all-insert_other headers name value other h = rw h (get_all-remove_other headers name other h)

abbrev pub header_lists : HeaderMaps
header_lists = record {
  HeaderMap = Fields;
  get_all = get_all;
  insert = insert;
  fields = λ headers. headers;
  get_all-insert = get_all-insert;
  get_all-insert_other = get_all-insert_other;
}
