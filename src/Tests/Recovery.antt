-- ===== src/Tests/Recovery.antt =====
-- Shares that carry the whole secret, in place of the secret-sharing crate.
use lvau.Base.{
  Among, ℕ, zero, suc, ◌≡◌, ◌↔◌, inl, inr, ◌<◌, ◌≤◌, refl, ap, Option, none, some, List, [], ◌∷◌,
  length, leb, All, replicate, arith,
}
use lvau.Base.Bytes.{Bytes}
use lvau.Error.{ok, err, validation}
use lvau.Envelope.{magic_real}
use lvau.Recovery.{RecoveryShare, Sharks, SharksLaws, make_shares, split_secret, combine_shares}
use lvau.Recovery.Combine.{Combines, combine_shares_iff}
use lvau.Recovery.Split.{combine_shares-split_secret, combine_shares-split_empty}

abbrev deal : Bytes → ℕ → List Bytes
deal secret zero = []
deal secret (suc n) = (suc n ∷ secret) ∷ deal secret n

abbrev recover : List Bytes → Option Bytes
recover [] = none
recover ([] ∷ ds) = none
recover ((x ∷ secret) ∷ ds) = some secret

abbrev toy_sharks : Sharks
toy_sharks = record {
  deal = λ t draws secret n. deal secret n;
  is_share = λ d. leb 2 (length d);
  recover = λ t picked. recover picked;
  sha256 = λ bytes. replicate 32 9;
}

dealt_lem :
    (secret : Bytes) (n : ℕ) (d : Bytes) → Among d (deal secret n) → (x : ℕ) × (d ≡ x ∷ secret)
dealt_lem secret zero d m = absurd m
dealt_lem secret (suc n) d (inl e) = (suc n, e)
dealt_lem secret (suc n) d (inr m) = dealt_lem secret n d m

recover_lem :
    (secret : Bytes) (t n : ℕ) (picked : List Bytes)
    → 0 < t
    → t ≤ length picked
    → All (λ d. Among d (deal secret n)) picked
    → recover picked ≡ some secret
recover_lem secret t n [] pos enough h = absurd (omega arith)
recover_lem secret t n (d ∷ picked) pos enough (m, h) =
    let (x, e) = dealt_lem secret n d m in rw e refl

toy-SharksLaws : SharksLaws toy_sharks
toy-SharksLaws = record {
  sized = λ t draws secret n d m. let (x, e) = dealt_lem secret n d m in ap length e;
  accepts = λ d h. ground arith;
  refuses = λ d h. ground arith;
  recovers = λ t draws secret n xs picked nonempty pos enough dealt starts distinct.
      recover_lem secret t n picked pos enough dealt;
}

abbrev share : ℕ → RecoveryShare
share i = record {
  magic = magic_real;
  version = 2;
  index = i;
  threshold = 2;
  fingerprint = 8 ∷ [];
  share_data = i ∷ 42 ∷ [];
}

made : split_secret toy_sharks [] (8 ∷ []) (42 ∷ []) 3 2 ≡ ok (share 3 ∷ share 2 ∷ share 1 ∷ [])
unfolding split_secret make_shares
made = refl

combine_shares-split_secret_example :
    combine_shares toy_sharks (share 1 ∷ share 3 ∷ []) ≡ ok (42 ∷ [])
combine_shares-split_secret_example =
    combine_shares-split_secret toy_sharks [] (8 ∷ []) (42 ∷ []) 3 2
      (share 3 ∷ share 2 ∷ share 1 ∷ []) (share 1) (share 3 ∷ []) toy-SharksLaws (omega arith) made
      (inr (inr (inl refl)), (inl refl, tt)) ((λ e. omega arith, tt), (tt, tt)) (omega arith)

abbrev empty_share : ℕ → RecoveryShare
empty_share i = record (share i) { share_data = i ∷ [] }

made_empty :
    split_secret toy_sharks [] (8 ∷ []) [] 3 2
    ≡ ok (empty_share 3 ∷ empty_share 2 ∷ empty_share 1 ∷ [])
unfolding split_secret make_shares
made_empty = refl

combine_shares-split_empty_example :
    combine_shares toy_sharks (empty_share 1 ∷ empty_share 3 ∷ [])
    ≡ err (validation "Invalid share data format")
combine_shares-split_empty_example =
    combine_shares-split_empty toy_sharks [] (8 ∷ []) 3 2
      (empty_share 3 ∷ empty_share 2 ∷ empty_share 1 ∷ []) (empty_share 1) (empty_share 3 ∷ [])
      toy-SharksLaws made_empty (inr (inr (inl refl)), (inl refl, tt))
      ((λ e. omega arith, tt), (tt, tt)) (omega arith)

combine_shares_iff_example :
    (combine_shares toy_sharks (share 1 ∷ share 3 ∷ []) ≡ ok (42 ∷ []))
    ↔ Combines toy_sharks (share 1) (share 3 ∷ []) (42 ∷ [])
combine_shares_iff_example = combine_shares_iff toy_sharks (share 1) (share 3 ∷ []) (42 ∷ [])
