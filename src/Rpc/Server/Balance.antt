-- ===== src/Rpc/Server/Balance.antt =====
-- How many blocks of memory the parts of `handle_client` hold.
use demo.Common.{
  ℕ, suc, ◌+◌, ◌≡◌, refl, ap, ◌∙◌, Bool, true, false, List, [], ◌∷◌, ltb, leb, if◌then◌else◌, not,
  length, Bool-cases, inl, inr, Option, none, some,
}
use demo.Common.Effect.{Holds, >>=-Holds, assert-Holds, Holds-map, fault}
use demo.Common.Alloc.{Heap, M, malloc, realloc, free, free_one}
use demo.Word.Carry.{u64}
use demo.Rpc.Buffer.{
  Buffer, buffer_new, buffer_append, buffer_append_u8, buffer_append_u32, copy_in, new_cap,
}
use demo.Rpc.Reader.{Reader, reader_read_bytes}
use demo.Rpc.Server.{Table, Handler, same_text, not_found, find_handler, answer}

-- As many blocks as `live` are held.
abbrev pub Live : {A : Type 0} → ℕ → A → Heap → Type 0
Live live a h = h.live ≡ live

pub free-Live : (h : Heap) (n : ℕ) → h.live ≡ suc n → Holds (Live n) (free h)
free-Live h n e = rw (free_one h n e) refl

-- A block more where memory is granted.
abbrev pub Granted : ℕ → Bool → Heap → Type 0
Granted live true h = h.live ≡ suc live
Granted live false h = h.live ≡ live

pub malloc-Granted : (live : ℕ) (h : Heap) → h.live ≡ live → Holds (Granted live) (malloc h)
unfolding malloc
malloc-Granted live h same = elim (Bool-cases (h.fails h.calls)) [
  | inl e ↦ rw e same
  | inr e ↦ rw e (ap suc same)
]

-- A buffer of two blocks where memory is granted.
abbrev pub Made : ℕ → Option Buffer → Heap → Type 0
Made live none h = h.live ≡ live
Made live (some b) h = h.live ≡ suc (suc live)

-- Both branches of a test.
pub if-Holds :
    {A : Type 0} (P : A → Heap → Type 0) (b : Bool) (m n : M A) (h : Heap)
    → (b ≡ true → Holds P (m h))
    → (b ≡ false → Holds P (n h))
    → Holds P ((if b then m else n) h)
if-Holds P true m n h p q = p refl
if-Holds P false m n h p q = q refl

-- What follows an allocation, and what follows a read.
pub granted-Holds :
    {A : Type 0} (P : A → Heap → Type 0) (b : Bool) (live : ℕ) (m n : M A) (h : Heap)
    → Granted live b h
    → (h.live ≡ live → Holds P (m h))
    → (h.live ≡ suc live → Holds P (n h))
    → Holds P ((if not b then m else n) h)
granted-Holds P false live m n h g p q = p g
granted-Holds P true live m n h g p q = q g

pub some-Holds :
    {A B : Type 0} (P : A → Heap → Type 0) (o : Option B) (m : M A) (f : B → M A) (h : Heap)
    → Holds P (m h)
    → ((x : B) → Holds P (f x h))
    → Holds P ((elim o as (λ x. M A) [ none ↦ m | some x ↦ f x ]) h)
some-Holds P none m f h p q = p
some-Holds P (some x) m f h p q = q x

pub made-Holds :
    {A : Type 0} (P : A → Heap → Type 0) (b : Option Buffer) (live : ℕ) (f : Buffer → M A)
    (h : Heap)
    → Made live b h
    → ((x : Buffer) → h.live ≡ suc (suc live) → Holds P (f x h))
    → Holds P ((elim b as (λ x. M A) [ none ↦ fault | some x ↦ f x ]) h)
made-Holds P none live f h p q = tt
made-Holds P (some x) live f h p q = q x p

pub buffer_new-Made :
    (cap live : ℕ) (h : Heap) → h.live ≡ live → Holds (Made live) (buffer_new cap h)
unfolding buffer_new
buffer_new-Made cap live h e =
    >>=-Holds malloc _ (Granted live) (Made live) h (malloc-Granted live h e) (λ b h1 p.
      granted-Holds (Made live) b live _ _ h1 p (λ l. l)
        (λ l.
          >>=-Holds malloc _ (Granted (suc live)) (Made live) h1 (malloc-Granted (suc live) h1 l)
            (λ b' h2 q.
              granted-Holds (Made live) b' (suc live) _ _ h2 q
                (λ l2.
                  >>=-Holds free _ (Live live) (Made live) h2 (free-Live h2 live l2)
                    (λ _ h3 l3. l3))
                (λ l2. l2))))

pub reader_read_bytes-Live :
    (r : Reader) (n live : ℕ) (h : Heap)
    → h.live ≡ live
    → Holds (Live live) (reader_read_bytes r n h)
unfolding reader_read_bytes
reader_read_bytes-Live r n live h e =
    if-Holds (Live live) (ltb r.len (u64 (r.pos + n))) _ _ h (λ short. e)
      (λ fits. assert-Holds (leb (r.pos + n) (length r.bytes)) _ (Live live) h (λ inside. e))

copy_in-Live :
    (b : Buffer) (src : List ℕ) (live : ℕ) (h : Heap)
    → h.live ≡ live
    → Holds (Live live) (copy_in b src h)
unfolding copy_in
copy_in-Live b src live h e =
    assert-Holds (leb (length b.bytes + length src) b.cap) _ (Live live) h (λ inside. e)

realloc-Live : (live : ℕ) (h : Heap) → h.live ≡ live → Holds (Live live) (realloc h)
unfolding realloc
realloc-Live live h e = e

buffer_append-Live :
    (b : Buffer) (src : List ℕ) (live : ℕ) (h : Heap)
    → h.live ≡ live
    → Holds (Live live) (buffer_append b src h)
unfolding buffer_append
buffer_append-Live b src live h e =
    if-Holds (Live live) (ltb b.cap (u64 (length b.bytes + length src))) _ _ h
      (λ grow.
        >>=-Holds realloc _ (Live live) (Live live) h (realloc-Live live h e) (λ granted h1 e1.
          if-Holds (Live live) (not granted) _ _ h1 (λ no. e1)
            (λ yes. copy_in-Live (record b { cap = new_cap b (length src) }) src live h1 e1)))
      (λ fits. copy_in-Live b src live h e)

-- A function that keeps no memory, and a table of such functions.
abbrev pub IsThrifty : Handler → Type 0
IsThrifty f = (r : Reader) (out : Buffer) (h : Heap) → Holds (Live h.live) (f r out h)

abbrev pub AllThrifty : Table → Type 0
AllThrifty [] = Unit
AllThrifty (e ∷ t) = IsThrifty e.handler × AllThrifty t

abbrev pub Found : Option Handler → Type 0
Found none = Unit
Found (some f) = IsThrifty f

pub find_handler-Found : (t : Table) (name : List ℕ) → AllThrifty t → Found (find_handler t name)
unfolding find_handler
find_handler-Found [] name k = tt
find_handler-Found (e ∷ t) name k = elim (Bool-cases (same_text e.name name)) [
  | inl same ↦ rw same k.0
  | inr other ↦ rw other (find_handler-Found t name k.1)
]

pub answer-Live :
    (found : Option Handler) (r : Reader) (out : Buffer) (live : ℕ) (h : Heap)
    → Found found
    → h.live ≡ live
    → Holds (Live live) (answer found r out h)
unfolding answer buffer_append_u8 buffer_append_u32
answer-Live none r out live h k e =
    >>=-Holds (buffer_append out _) _ (Live live) (Live live) h (buffer_append-Live out _ live h e)
      (λ a h1 e1.
        >>=-Holds (buffer_append a.1 _) _ (Live live) (Live live) h1
          (buffer_append-Live a.1 _ live h1 e1)
          (λ b h2 e2.
            >>=-Holds (buffer_append b.1 not_found) _ (Live live) (Live live) h2
              (buffer_append-Live b.1 not_found live h2 e2) (λ c h3 e3. e3)))
answer-Live (some f) r out live h k e =
    Holds-map (Live h.live) (Live live) _ (k r out h) (λ out' h1 l. l ∙ e)
