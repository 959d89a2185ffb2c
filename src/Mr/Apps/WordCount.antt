-- ===== src/Mr/Apps/WordCount.antt =====
-- Word count (src/mrapps/wc.go) in a reduce task (src/mr/worker.go).
use Prim.Native.String.{String}
use text.Mathlib.Text.{◌==◌ as str_eq}
use mit_distribution.Base.{
  ℕ, ◌+◌, ◌<◌, ◌≡◌, refl, ap, ◌∙◌, inl, inr, Bool, false, some, List, [], ◌∷◌, map, length,
  if◌then◌else◌, arith, Bool-cases,
}
use mit_distribution.Mr.Worker.{KeyValue, do_reduce}
use mit_distribution.Mr.Worker.Sorted.{Sorted, values_of, distinct, one_line_per_key}
use mit_distribution.Mr.Apps.{count_map, count_reduce, words_of}

-- How often a word occurs in a list of words.
unfoldable pub occurrences : String → List String → ℕ
occurrences w [] = 0
occurrences w (v ∷ words) = (if str_eq v w then 1 else 0) + occurrences w words

length-values_of :
    (w : String) (words : List String)
    → length (values_of w (map (λ v. record { key = v; value = "1" }) words)) ≡ occurrences w words
unfolding values_of occurrences
length-values_of w [] = refl
length-values_of w (v ∷ words) =
    let below = length-values_of w words in
    elim (Bool-cases (str_eq v w)) [
      | inl here ↦ ground (arith, here, below)
      | inr other ↦ ground (arith, other, below)
    ]

module _ (less : String → String → Bool)
    (total : (a b : String) → less a b ≡ false → less b a ≡ false → a ≡ b) where
  -- A reduce task that has read what word count makes of a text with a word in it writes one line for each word: the
  -- number of times that it occurs in the text. The sort keeps the number of pairs, in all and of each key, and
  -- sorts by a total order.
  pub word_count :
      (is_letter : ℕ → Bool) (itoa : ℕ → String) (sort : List KeyValue → List KeyValue)
      (filename contents : String)
      → 0 < length (count_map is_letter filename contents)
      → length (sort (count_map is_letter filename contents))
        ≡ length (count_map is_letter filename contents)
      → ((w : String)
          → length (values_of w (sort (count_map is_letter filename contents)))
            ≡ length (values_of w (count_map is_letter filename contents)))
      → Sorted less (sort (count_map is_letter filename contents))
      → do_reduce (count_reduce itoa) sort (count_map is_letter filename contents)
        ≡ some (
            some (
              map
                (λ w. (w, itoa (occurrences w (words_of is_letter contents))))
                (distinct (sort (count_map is_letter filename contents)))))
  unfolding count_map count_reduce
  word_count is_letter itoa sort filename contents some_word same each sorted =
      let kvs = count_map is_letter filename contents in
      one_line_per_key less total (count_reduce itoa) sort kvs some_word same sorted
      ∙ ap (λ (line : String → String × String). some (some (map line (distinct (sort kvs)))))
          (λ i w. (w, itoa ((each w ∙ length-values_of w (words_of is_letter contents)) i)))
