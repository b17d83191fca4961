-- ===== src/Utils/Split.antt =====
-- What `splitString` yields on texts that are put together with its delimiter.
use distributed_mutual_exclu.Base.{
  ℕ, ◌≡◌, ◌≢◌, [], ◌∷◌, ◌++◌, append_assoc, append-nil, arith, Bytes, Lacks, ap, ◌∙◌, refl,
}
use distributed_mutual_exclu.Utils.{split_from, split_string}

module _ (d : ℕ) where
  -- A token that a delimiter ends.
  pub split_from-append :
      (p s token : Bytes)
      → Lacks d p
      → split_from d token (p ++ d ∷ s) ≡ (token ++ p) ∷ split_from d [] s
  unfolding split_from
  split_from-append [] s token h = ground (arith, append-nil token)
  split_from-append (c ∷ p) s token h =
      ground (arith, split_from-append p s (token ++ c ∷ []) h.1, append_assoc token (c ∷ []) p)

  -- The last token.
  pub split_from_last :
      (p token : Bytes) → Lacks d p → (token ++ p) ≢ [] → split_from d token p ≡ (token ++ p) ∷ []
  unfolding split_from
  split_from_last [] [] h m = absurd (m refl)
  split_from_last [] (c ∷ t) h m = rw append-nil
  split_from_last (c ∷ p) token h m =
      ground (arith, split_from_last p (token ++ c ∷ []) h.1, append_assoc token (c ∷ []) p)

pub split_string_two :
    (d : ℕ) (p q : Bytes)
    → Lacks d p
    → Lacks d q
    → q ≢ []
    → split_string (p ++ d ∷ q) d ≡ p ∷ q ∷ []
unfolding split_string
split_string_two d p q hp hq m =
    split_from-append d p q [] hp ∙ ap (◌∷◌ p) (split_from_last d q [] hq m)
