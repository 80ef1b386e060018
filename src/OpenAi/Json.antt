-- ===== src/OpenAi/Json.antt =====
-- What encoding/json and sonic decode into an `interface{}`, and the operations of package bytes that
-- pkg/transcoder/openai/transcoder.go uses. Texts are their bytes; keys are `String`.
use istio_llm_filter.Common.{
  ℕ, String, Bool, true, false, ◌&&◌, ◌||◌, List, [], ◌∷◌, ◌==◌, str_eq, if◌then◌else◌,
}

-- A number is kept as its literal.
mutual
  pub data Json : Type 0 where
    null : Json
    boolean : Bool → Json
    number : String → Json
    string : List ℕ → Json
    array : Items → Json
    object : Fields → Json

  pub data Items : Type 0 where
    nil : Items
    cons : Json → Items → Items

  pub data Fields : Type 0 where
    end : Fields
    field : String → Json → Fields → Fields

-- `m[k]` of a `map[string]interface{}`: nil where the key is missing.
unfoldable pub get_field : String → Fields → Json
get_field k end = null
get_field k (field j v fs) = if str_eq j k then v else get_field k fs

abbrev pub bytes_eq : List ℕ → List ℕ → Bool
bytes_eq [] [] = true
bytes_eq (x ∷ xs) (y ∷ ys) = x == y && bytes_eq xs ys
bytes_eq _ _ = false

-- `v == "..."` for an `interface{}`, and `v.(string)`.
abbrev pub is_text : List ℕ → Json → Bool
is_text s (string t) = bytes_eq s t
is_text s _ = false

abbrev pub text_or_empty : Json → List ℕ
text_or_empty (string t) = t
text_or_empty _ = []

-- `bytes.HasPrefix` and `bytes.Contains`: the text first, as in the source.
unfoldable pub has_prefix : List ℕ → List ℕ → Bool
has_prefix s [] = true
has_prefix [] (p ∷ ps) = false
has_prefix (x ∷ xs) (p ∷ ps) = x == p && has_prefix xs ps

unfoldable pub contains : List ℕ → List ℕ → Bool
contains [] sub = has_prefix [] sub
contains (x ∷ xs) sub = has_prefix (x ∷ xs) sub || contains xs sub
