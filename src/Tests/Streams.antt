-- ===== src/Tests/Streams.antt =====
-- A payload of three bytes in chunks of two.
use blockchain_messaging_pro.Common.{
  ℕ, zero, suc, ◌≡◌, ◌≤◌, ◌<◌, ◌+◌, ◌*◌, inl, inr, refl, none, some, List, [], ◌∷◌, length, Bytes,
  Str, codes, ok, arith, nat_eq, str_eq,
}
use blockchain_messaging_pro.Common.Dict
use blockchain_messaging_pro.Chunks.{Chunk, Reassembler, chunk_total, chunk}
use blockchain_messaging_pro.Chain.Mempool.{All}
use blockchain_messaging_pro.Chunks.Iteration.{IsPiece, drain, drain-chunk_iter}
use blockchain_messaging_pro.Chunks.Arrivals.{receive, arrivals, Occurs}
use blockchain_messaging_pro.Chunks.Delivery.{receive-content}
use blockchain_messaging_pro.Tests.{toy}

abbrev payload : Bytes
payload = codes "abc"

abbrev nonzero : 0 < 2
nonzero = omega arith

absent : Dict.get {K = Str} {V = ℕ} [] (codes "s") ≡ none
unfolding Dict.get
absent = refl

payload_total : chunk_total 2 payload ≡ 2
unfolding chunk_total
payload_total = refl

drain-chunk_iter_example :
    (cs : List Chunk) × (drain toy 2 payload (codes "s") 3 0 ≡ ok cs)
    × (chunk toy 2 payload (codes "s") ≡ ok cs)
    × (3 ≤ length cs * 2)
    × (length cs * 2 < 3 + 2)
    × All (IsPiece toy 2 (length cs)) cs
drain-chunk_iter_example =
    drain-chunk_iter toy 2 payload (codes "s") nonzero 3 (omega (arith, payload_total))

Occurs-all : (j : ℕ) → j < chunk_total 2 payload → Occurs j (1 ∷ 1 ∷ 0 ∷ [])
unfolding chunk_total
Occurs-all zero h = inr (inr (inl refl))
Occurs-all (suc zero) h = inl refl
Occurs-all (suc (suc j)) h = absurd (omega (arith, h, payload_total))

receive-content_example :
    (r' : Reassembler) × ((receive toy []
          (arrivals toy 2 payload nonzero (codes "s") (1 ∷ 1 ∷ 0 ∷ []))
        ≡ (r', ok (some payload)))
      × (Dict.get r' (codes "s") ≡ none))
unfolding Dict.get
receive-content_example =
    receive-content toy 2 payload nonzero (codes "s") [] (1 ∷ 1 ∷ 0 ∷ []) refl (omega arith)
      (
        omega (arith, payload_total),
        (omega (arith, payload_total), (omega (arith, payload_total), tt)),
      )
      Occurs-all
