-- ===== src/Nat/Norm.antt =====
-- `natNorm` drops the leading zeros of a view and keeps its value.
use demo.Common.{
  ℕ, zero, suc, ◌+◌, ◌*◌, ◌≤◌, ◌≡◌, refl, arith, some, List, length, ◌⊎◌, inl, inr, ap, ◌∙◌,
  Bool-cases, ◌==◌, ==→eq, ==→ne, if◌then◌else◌, [], ◌∷◌, ◌++◌,
}
use demo.Word.Carry.{B}
use demo.Memory.{Heap, ◌>>=◌, words, word_at}
use demo.Memory.Laws.{length-words, words-zero, load-some, words-snoc}
use demo.Nat.{Nat, get, norm_len, nat_norm}
use demo.Nat.Value.{value, radix, AllWords, value-snoc, radix-le-snoc, AllWords-front}
use demo.Nat.Laws.{
  Holds, Returns, IsReady, new_nat, filled, filled-Holds, filled-Keeps, filled-IsReady,
}

-- No zeros lead: the highest word, if there is one, is not 0.
abbrev pub IsNormal : List ℕ → Type 0
IsNormal ws = (length ws ≡ 0) ⊎ (radix (length ws) ≤ B * value ws)

one-word : (ws : List ℕ) → length ws ≡ 1 → (w : ℕ) × (ws ≡ w ∷ [])
one-word [] e = absurd (omega arith)
one-word (w ∷ []) e = (w, refl)
one-word (w ∷ v ∷ ws) e = absurd (omega arith)

-- What `norm_len` finds, started at the length `n` of the words `ws`.
pub record Trimmed (h : Heap) (p : Nat) (n : ℕ) (ws : List ℕ) : Type 0 where
  pub k : ℕ
  pub front : List ℕ
  pub returns : norm_len p n h ≡ some (k, h)
  pub at : words h p.blk p.off k ≡ some front
  pub same : value front ≡ value ws
  pub normal : IsNormal front
  pub shorter : k ≤ n
  pub all : AllWords front

norm_len-zero : (h : Heap) (p : Nat) → norm_len p zero h ≡ some (zero, h)
unfolding norm_len
norm_len-zero h p = refl

norm_len-suc :
    (h : Heap) (p : Nat) (i : ℕ) {w : ℕ}
    → word_at h p.blk (p.off + i) ≡ some w
    → norm_len p (suc i) h ≡ (if w == 0 then norm_len p i h else some (suc i, h))
unfolding norm_len get
norm_len-suc h p i {w} e = rw (norm_len, ◌>>=◌, load-some h p.blk (p.off + i) e) (ground arith)

pub norm_len-Trimmed :
    (h : Heap) (p : Nat) (n : ℕ) {ws : List ℕ}
    → words h p.blk p.off n ≡ some ws
    → AllWords ws
    → Trimmed h p n ws
norm_len-Trimmed h p zero e all = record {
  k = zero;
  front = [];
  returns = norm_len-zero h p;
  at = unfold words in refl;
  same = rw (words-zero h p.blk p.off e);
  normal = inl refl;
  shorter = omega arith;
  all = tt;
}
norm_len-Trimmed h p (suc n) {ws} e all =
    let (xs, w, at_xs, at_w, split) = words-snoc h p.blk p.off n e in
    let all' : AllWords (xs ++ (w ∷ [])) = rw split at all in
    let len_xs = length-words h p.blk p.off n at_xs in
    elim (Bool-cases (w == 0)) [
      | inl e0 ↦
          let rest = norm_len-Trimmed h p n at_xs (AllWords-front xs (w ∷ []) all') in
          record {
            k = rest.k;
            front = rest.front;
            returns = norm_len-suc h p n at_w ∙ rw e0 rest.returns;
            at = rest.at;
            same = rest.same ∙ rw (split, value-snoc, ==→eq w 0 e0) (omega arith);
            normal = rest.normal;
            shorter = omega (arith, rest.shorter);
            all = rest.all;
          }
      | inr e1 ↦ record {
        k = suc n;
        front = ws;
        returns = norm_len-suc h p n at_w ∙ rw e1 refl;
        at = e;
        same = refl;
        normal = inr (
            rw (length-words h p.blk p.off (suc n) e, split)
              (omega (arith, radix-le-snoc xs w (==→ne w 0 e1), ap radix len_xs)));
        shorter = omega arith;
        all = all;
      }
    ]

-- `natNorm` returns the same view, shortened, on the same heap: it holds the same number, and the
-- words that are left are none or their top word is not 0.
pub nat_norm-Trimmed :
    (h : Heap) (p : Nat) {ws : List ℕ}
    → Holds h p ws
    → (t : Trimmed h p p.len ws) × (nat_norm p h ≡ some (record p { len = t.k }, h))
unfolding nat_norm
nat_norm-Trimmed h p v =
    let t = norm_len-Trimmed h p p.len v.at v.all in (t, rw (nat_norm, ◌>>=◌, t.returns))

-- A new block, filled with words and then cut by `natNorm`.
pub nat_norm-filled :
    (h : Heap) (n : ℕ) (ws : List ℕ) (r : IsReady h) (size : length ws ≡ n)
    → AllWords ws
    → Returns h (value ws) (nat_norm (new_nat h n) (filled h n ws r size))
nat_norm-filled h n ws r size all =
    let v = filled-Holds h n ws r size all in
    let (t, returns) = nat_norm-Trimmed (filled h n ws r size) (new_nat h n) v in
    record {
      view = record (new_nat h n) { len = t.k };
      heap = filled h n ws r size;
      digits = t.front;
      returns = returns;
      holds = record { at = t.at; old = v.old; all = t.all };
      total = t.same;
      keeps = filled-Keeps h n ws r size;
      ready = filled-IsReady h n ws r size;
    }
