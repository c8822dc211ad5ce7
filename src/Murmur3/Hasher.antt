-- ===== src/Murmur3/Hasher.antt =====
-- The interface that the three hashers of murmur3 share: a state mixed from full blocks, a block
-- buffer, and the length so far. Each hasher fills it.
pub mod Streaming
use hashcodecs_rs.Common.{ℕ, ◌+◌, ◌%◌, ◌<◌, ◌≡◌, Option, some, List, length}
use hashcodecs_rs.Murmur3.BlockBuffer.{Mix, BlockBuffer, new_buffer, consume, remaining, split}
use hashcodecs_rs.Murmur3.BlockBuffer.Laws.{IsMixer}

-- The operations of a hasher `H` with states in `S` and digests in `D`.
pub record Operations (H S D : Type 0) : Type 0 where
  pub block_size : ℕ
  pub modulus : ℕ
  pub start : ℕ → S
  pub mix : Mix S
  pub finish : List ℕ → S → ℕ → Option D
  pub new : ℕ → Option H
  pub update : H → List ℕ → Option H
  pub digest : H → Option D
  pub one_call : List ℕ → ℕ → Option D
  pub state : H → S
  pub tail : H → BlockBuffer
  pub total : H → ℕ

-- What each operation does with the block buffer.
pub record IsHasher {H S D : Type 0} (o : Operations H S D) : Type 0 where
  pub positive : 0 < o.block_size
  pub counts : 0 < o.modulus
  pub mixer : IsMixer o.block_size o.mix
  pub new_runs :
      (seed : ℕ) (b : BlockBuffer)
      → new_buffer o.block_size ≡ some b
      → (h : H) × (o.new seed ≡ some h)
        × (o.state h ≡ o.start seed)
        × (o.tail h ≡ b)
        × (o.total h ≡ 0)
  pub update_runs :
      (h : H) (input : List ℕ) (q : S × BlockBuffer)
      → consume o.block_size (o.tail h) input o.mix (o.state h) ≡ some q
      → (h' : H) × (o.update h input ≡ some h')
        × (o.state h' ≡ q.0)
        × (o.tail h' ≡ q.1)
        × (o.total h' ≡ (o.total h + length input % o.modulus) % o.modulus)
  pub digest_runs :
      (h : H) (rest : List ℕ)
      → remaining (o.tail h) ≡ some rest
      → o.digest h ≡ o.finish rest (o.state h) (o.total h)
  pub one_call_runs :
      (seed : ℕ) (text body rest : List ℕ) (s : S)
      → split o.block_size text ≡ some (body, rest)
      → o.mix body (o.start seed) ≡ some s
      → o.one_call text seed ≡ o.finish rest s (length text % o.modulus)
