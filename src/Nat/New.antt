-- ===== src/Nat/New.antt =====
-- `natNew` makes a view of one word.
use demo.Common.{ℕ, ◌≡◌, ◌<◌, refl, arith, some, [], ◌∷◌}
use demo.Word.Carry.{B}
use demo.Memory.{Heap, ◌>>=◌, put_words}
use demo.Nat.{nat_new}
use demo.Nat.Laws.{
  IsReady, Returns, grow, new_nat, nat_new_len-grow, put-put_words, word_at-grow_new, written-Keeps,
  written-IsReady, written-Holds,
}

nat_new-written :
    (h : Heap) (v : ℕ)
    → IsReady h
    → nat_new v h ≡ some (record (new_nat h 8) { len = 1 }, put_words (grow h 8) h.next 0 (v ∷ []))
unfolding nat_new
nat_new-written h v r =
    rw
      (
        ◌>>=◌,
        nat_new_len-grow h 8 r (omega arith),
        put-put_words (grow h 8) (new_nat h 8) 0 v (word_at-grow_new h 8 0 (omega arith)),
      )
      refl

-- `natNew` allocates a view of the word that it is given, and changes nothing that was there before,
-- where memory is granted.
pub nat_new-Returns : (h : Heap) (v : ℕ) → IsReady h → v < B → Returns h v (nat_new v h)
nat_new-Returns h v r lt = record {
  view = record (new_nat h 8) { len = 1 };
  heap = put_words (grow h 8) h.next 0 (v ∷ []);
  digits = v ∷ [];
  returns = nat_new-written h v r;
  holds = written-Holds h 8 (v ∷ []) r refl (omega arith) (lt, tt);
  total = omega arith;
  keeps = written-Keeps h 8 (v ∷ []) r;
  ready = written-IsReady h 8 (v ∷ []) r;
}
