-- ===== src/Mr/Apps.antt =====
-- The applications of MapReduce: word count (src/mrapps/wc.go) and the index (src/mrapps/indexer.go). Which
-- runes are letters, the decimal notation of numbers, the sort and the order in which Go ranges over a
-- map are parameters.
pub mod WordCount
use Prim.Native.Char.{code}
use Prim.Native.String.{String, ◌++◌ as str_append}
use Prim.Native.String
use text.Mathlib.Text.{◌==◌ as str_eq}
use mit_distribution.Base.{ℕ, Bool, not, List, [], ◌∷◌, map, length, if◌then◌else◌}
use mit_distribution.Base.Maps.{contains}
use mit_distribution.Mr.Worker.{KeyValue}

-- A word that ends: `strings.FieldsFunc` gives no empty ones.
abbrev pub close_word : String → List String → List String
close_word word words = if str_eq word "" then words else word ∷ words

-- The word at the start of a text, which may be empty, and the words after it.
unfoldable pub split_words : (ℕ → Bool) → String → String × List String
split_words is_separator String.[] = ("", [])
split_words is_separator (String.◌∷◌ c s) =
    let (word, words) = split_words is_separator s in
    if is_separator (code c) then ("", close_word word words) else (String.◌∷◌ c word, words)

-- `strings.FieldsFunc`
unfoldable pub fields_func : (ℕ → Bool) → String → List String
unfolding split_words
fields_func is_separator s = let (word, words) = split_words is_separator s in close_word word words

-- The words of a text: runs of letters.
unfoldable pub words_of : (ℕ → Bool) → String → List String
unfolding fields_func
words_of is_letter = fields_func (λ c. not (is_letter c))

-- `Map` of word count.
unfoldable pub count_map : (ℕ → Bool) → (filename contents : String) → List KeyValue
unfolding words_of
count_map is_letter filename contents =
    map (λ w. record { key = w; value = "1" }) (words_of is_letter contents)

-- `Reduce` of word count.
unfoldable pub count_reduce : (ℕ → String) → String → List String → String
count_reduce itoa key values = itoa (length values)

-- The keys of the map `m` of the index, each once.
unfoldable pub key_set : List String → List String
key_set [] = []
key_set (w ∷ words) = let rest = key_set words in if contains rest w then rest else w ∷ rest

-- `Map` of the index.
unfoldable pub index_map :
    (ℕ → Bool) → (range : List String → List String) → (document value : String) → List KeyValue
unfolding words_of key_set
index_map is_letter range document value =
    map (λ w. record { key = w; value = document }) (range (key_set (words_of is_letter value)))

-- `strings.Join(values, ",")`
unfoldable pub join_commas : List String → String
join_commas [] = ""
join_commas (v ∷ values) =
    let rest = join_commas values in
    elim values [ [] ↦ v | _ ∷ _ ↦ str_append v (str_append "," rest) ]

-- `Reduce` of the index.
unfoldable pub index_reduce :
    (ℕ → String) → (sort : List String → List String) → String → List String → String
unfolding join_commas
index_reduce itoa sort key values =
    str_append (itoa (length values)) (str_append " " (join_commas (sort values)))
