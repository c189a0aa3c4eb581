-- ===== src/Buffer/Content.antt =====
-- buffer.c: the bytes that a chain still has to deliver.
use opennap.Base.{
  ℕ, ◌+◌, ◌-◌, ◌≡◌, refl, sym, List, [], ◌∷◌, ◌++◌, arith, length, drop, All, length-append,
  length-drop, append_assoc,
}
use opennap.Text.{Bytes}
use opennap.Buffer.{Buffer, datasize, IsValid, buffer_append, size_from, buffer_size}

unfoldable pub content : List Buffer → Bytes
content [] = []
content (b ∷ bs) = drop b.consumed b.block ++ content bs

abbrev pub AllValid : List Buffer → Type 0
AllValid = All IsValid

-- The chain `a` followed by `b` delivers what `a` does and then what `b` does.
pub content-buffer_append :
    (a b : List Buffer) → content (buffer_append a b) ≡ content a ++ content b
unfolding content buffer_append
content-buffer_append [] b = refl
content-buffer_append (c ∷ a) b =
    rw (content-buffer_append a b) (sym (append_assoc (drop c.consumed c.block) _ _))

pub buffer_append-AllValid :
    (a b : List Buffer) → AllValid a → AllValid b → AllValid (buffer_append a b)
unfolding buffer_append
buffer_append-AllValid [] b h k = k
buffer_append-AllValid (c ∷ a) b h k = (h.0, buffer_append-AllValid a b h.1 k)

size_from-content : (n : ℕ) (bs : List Buffer) → size_from n bs ≡ n + length (content bs)
unfolding size_from content
size_from-content n [] = omega arith
size_from-content n (b ∷ bs) = omega (
  arith,
  size_from-content (n + (datasize b - b.consumed)) bs,
  length-append (drop b.consumed b.block) (content bs),
  length-drop b.consumed b.block,
)

-- `buffer_size` is the number of bytes that the chain has to deliver.
pub buffer_size-content : (bs : List Buffer) → buffer_size bs ≡ length (content bs)
unfolding buffer_size
buffer_size-content bs = omega (arith, size_from-content 0 bs)
