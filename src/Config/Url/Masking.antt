-- ===== src/Config/Url/Masking.antt =====
-- What maskURL shows of a URL.
use mentor_ia_worker.Prelude.{
  ℕ, ◌≡◌, refl, true, false, none, some, [], ◌∷◌, ◌++◌, arith, All, any, ◌==◌, ==_refl,
}
use mentor_ia_worker.Text.{Bytes, is_empty}
use mentor_ia_worker.Config.Url.{
  split_first, after_last, separator, mask, masked, masked_parts, mask_url,
}

-- A byte does not occur in a text.
abbrev pub IsFreeOf : ℕ → Bytes → Type 0
IsFreeOf c = All (λ x. (x == c) ≡ false)

after_last-IsFreeOf : (c : ℕ) (s : Bytes) → IsFreeOf c s → after_last c s ≡ none
unfolding after_last
after_last-IsFreeOf c [] h = refl
after_last-IsFreeOf c (x ∷ xs) h = rw (after_last-IsFreeOf c xs h.1, h.0) refl

after_last-append :
    (c : ℕ) (before after : Bytes)
    → IsFreeOf c after
    → after_last c (before ++ (c ∷ after)) ≡ some after
unfolding after_last
after_last-append c [] after h = rw (after_last-IsFreeOf c after h, ==_refl c) refl
after_last-append c (x ∷ before) after h = rw (after_last-append c before after h) refl

split_first-append :
    (scheme rest : Bytes)
    → IsFreeOf b':' scheme
    → split_first separator (scheme ++ (separator ++ rest)) ≡ some (scheme, rest)
unfolding split_first
split_first-append [] rest h = refl
split_first-append (x ∷ scheme) rest h = rw (other, split_first-append scheme rest h.1) refl
  where
    other : (b':' == x) ≡ false
    other = ground arith

any-append :
    (c : ℕ) (before after : Bytes)
    → any (λ x. x == c) after ≡ true
    → any (λ x. x == c) (before ++ after) ≡ true
any-append c [] after h = h
any-append c (x ∷ before) after h = ground (arith, any-append c before after)

is_empty-append : (before after : Bytes) (c : ℕ) → is_empty (before ++ (c ∷ after)) ≡ false
is_empty-append [] after c = ground arith
is_empty-append (x ∷ before) after c = ground arith

-- A URL with credentials is logged with its scheme and its host only: the credentials, whatever
-- they contain, are replaced by three asterisks each.
pub mask_url_hides :
    (scheme credentials host : Bytes)
    → IsFreeOf b':' scheme
    → IsFreeOf b'@' host
    → mask_url (scheme ++ (separator ++ (credentials ++ (b'@' ∷ host)))) ≡ scheme ++ (mask ++ host)
unfolding mask_url
mask_url_hides scheme credentials host hs hh =
    rw
      (is_empty-append scheme (b'/' ∷ b'/' ∷ rest) b':', at_sign, split_first-append scheme rest hs)
      shown
  where
    rest : Bytes
    rest = credentials ++ (b'@' ∷ host)

    at_sign : any (λ x. x == b'@') (scheme ++ (separator ++ rest)) ≡ true
    at_sign = any-append b'@' scheme (separator ++ rest) (
        any-append b'@' separator rest
          (any-append b'@' credentials (b'@' ∷ host) (rw (==_refl b'@') refl)))

    shown :
        masked_parts (scheme ++ (separator ++ rest)) (some (scheme, rest))
        ≡ scheme ++ (mask ++ host)
    shown = unfold masked_parts masked in rw (after_last-append b'@' credentials host hh) refl
