-- ===== src/Rpc/Server/Registry.antt =====
-- The table of rpc_server.c as a partial map from names to functions.
use demo.Common.{
  ℕ, ◌≤◌, ◌<◌, ◌≡◌, refl, arith, ap, ◌∙◌, List, [], ◌∷◌, ◌++◌, length, length-append, take-short,
  Option, none, some, leb, leb→le, leb→lt, lt→leb, if◌then◌else◌, Bool-cases, inl, inr, ◌⊎◌,
}
use demo.Common.Int.{ℤ}
use demo.Rpc.{success, failure}
use demo.Rpc.Server.{
  Table, Entry, Handler, max_handlers, rpc_server_register, find_handler, same_text, stored_name,
}

-- Where a map has no value for a name, another one is taken.
abbrev pub or_else : Option Handler → Option Handler → Option Handler
or_else none other = other
or_else (some f) other = some f

find-append :
    (t t' : Table) (x : List ℕ)
    → find_handler (t ++ t') x ≡ or_else (find_handler t x) (find_handler t' x)
unfolding find_handler
find-append [] t' x = refl
find-append (e ∷ t) t' x = elim (Bool-cases (same_text e.name x)) [
  | inl same ↦ rw same refl
  | inr other ↦ rw other (find-append t t' x)
]

find-one :
    (e : Entry) (x : List ℕ)
    → find_handler (e ∷ []) x ≡ (if same_text e.name x then some e.handler else none)
unfolding find_handler
find-one e x = refl

-- A registration as a change of the map `find_handler t`, for names of at most 255 bytes.
pub record Registered (t : Table) (name : List ℕ) (handler : Handler) (result : ℤ × Table)
    : Type 0 where
  pub returns : result.0 ≡ success
  pub view :
      (x : List ℕ)
      → find_handler result.1 x
        ≡ or_else (find_handler t x) (if same_text name x then some handler else none)
  pub bound : length result.1 ≤ max_handlers

register-room :
    (t : Table) (name : List ℕ) (handler : Handler)
    → length name < 256
    → length t < max_handlers
    → Registered t name handler (rpc_server_register t name handler)
unfolding rpc_server_register
register-room t name handler short lt =
    let e : Entry = record { name = stored_name name; handler = handler } in
    let stored : stored_name name ≡ name = take-short 255 name (omega arith) in
    let found : (x : List ℕ)
        → find_handler (t ++ (e ∷ [])) x
          ≡ or_else (find_handler t x) (if same_text name x then some handler else none) =
      λ x.
        find-append t (e ∷ []) x
        ∙ ap (or_else (find_handler t x))
            (find-one e x ∙ ap (λ n. if same_text n x then some handler else none) stored) in
    rw (lt→leb max_handlers (length t) lt)
      (record { returns = refl; view = found; bound = omega (arith, length-append t (e ∷ [])) })

-- `rpc_server_register` refines a map from names to functions in which the first function of a name
-- stays, for names of at most 255 bytes and a table of at most 128 entries, which stays within
-- that; a full table is left as it is, with -1 as the result.
pub rpc_server_register-Outcome :
    (t : Table) (name : List ℕ) (handler : Handler)
    → length name < 256
    → length t ≤ max_handlers
    → ((length t < max_handlers) × Registered t name handler (rpc_server_register t name handler))
      ⊎ ((length t ≡ max_handlers) × (rpc_server_register t name handler ≡ (failure, t)))
unfolding rpc_server_register
rpc_server_register-Outcome t name handler short bound =
    elim (Bool-cases (leb max_handlers (length t))) [
      | inl full ↦ inr (omega (arith, leb→le max_handlers (length t) full), rw full refl)
      | inr room ↦
          let lt : length t < max_handlers = leb→lt max_handlers (length t) room in
          inl (lt, register-room t name handler short lt)
    ]
