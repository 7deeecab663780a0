-- ===== src/Title/Layout.antt =====
-- `initializeProcessEnv` of src/ProcessTitle.hpp on the block that the system lays out: the arguments
-- and behind them the environment.
use svnsrv.Base.{
  ℕ, zero, suc, ◌+◌, ◌-◌, true, List, [], ◌∷◌, ◌++◌, some, ◌≡◌, refl, ◌∙◌, ap, sym, length, take,
  drop, All, append-nil, append_assoc, length-append, arith,
}
use mathlib.Core.List.{map}
use svnsrv.Base.Text.{Bytes, c_str, c_str-append, laid_out, IsText}
use svnsrv.Title.{
  strlen_at, last_argument, Place, in_heap, copy_string, copy_environ, environ_size,
  initialize_process_env,
}

-- The addresses of strings that are laid out from `k` on.
abbrev pub offsets : ℕ → List Bytes → List ℕ
offsets k [] = []
offsets k (a ∷ as_) = k ∷ offsets (k + length a + 1) as_

pub drop-append : (xs ys : Bytes) → drop (length xs) (xs ++ ys) ≡ ys
drop-append [] ys = refl
drop-append (x ∷ xs) ys = drop-append xs ys

drop-nil : (n : ℕ) → drop {A = ℕ} n [] ≡ []
drop-nil zero = refl
drop-nil (suc n) = refl

drop-string : (a rest : Bytes) (n : ℕ) → n ≡ length a + 1 → drop n (a ++ 0 ∷ rest) ≡ rest
drop-string [] rest n e = let one : n ≡ 1 = omega arith in ap (λ k. drop k (0 ∷ rest)) one
drop-string (c ∷ cs) rest zero e = absurd (omega arith)
drop-string (c ∷ cs) rest (suc n) e = drop-string cs rest n (omega arith)

drop-drop : (n m k : ℕ) (xs : Bytes) → k ≡ n + m → drop k xs ≡ drop m (drop n xs)
drop-drop zero m k xs e = ap (λ i. drop i xs) (omega arith)
drop-drop (suc n) m zero xs e = absurd (omega arith)
drop-drop (suc n) m (suc k) [] e = sym (drop-nil m)
drop-drop (suc n) m (suc k) (x ∷ xs) e = drop-drop n m k xs (omega arith)

drop-laid_out :
    (k : ℕ) (area a rest : Bytes)
    → drop k area ≡ a ++ 0 ∷ rest
    → drop (k + length a + 1) area ≡ rest
drop-laid_out k area a rest e =
    drop-drop k (length a + 1) (k + length a + 1) area (omega arith)
    ∙ (ap (drop (length a + 1)) e ∙ drop-string a rest (length a + 1) refl)

strlen_at-string :
    (k : ℕ) (area a rest : Bytes)
    → drop k area ≡ a ++ 0 ∷ rest
    → IsText a
    → strlen_at area k ≡ length a
strlen_at-string k area a rest e t = ap length (ap c_str e ∙ c_str-append a rest t)

last_argument-next :
    (area : Bytes) (k : ℕ) (as_ : List ℕ)
    → last_argument area k (k ∷ as_) ≡ last_argument area (k + strlen_at area k + 1) as_
unfolding last_argument
last_argument-next area k as_ = ground arith

laid_out-cons :
    (a : Bytes) (as_ : List Bytes) (rest : Bytes)
    → laid_out (a ∷ as_) ++ rest ≡ a ++ 0 ∷ (laid_out as_ ++ rest)
laid_out-cons a as_ rest = append_assoc a (0 ∷ laid_out as_) rest

-- The first loop runs through all arguments.
last_argument-laid_out :
    (as_ : List Bytes) (k : ℕ) (area rest : Bytes)
    → drop k area ≡ laid_out as_ ++ rest
    → All IsText as_
    → last_argument area k (offsets k as_) ≡ k + length (laid_out as_)
unfolding last_argument
last_argument-laid_out [] k area rest e t = omega arith
last_argument-laid_out (a ∷ as_) k area rest e t =
    let e' = e ∙ laid_out-cons a as_ rest in
    last_argument-next area k (offsets (k + length a + 1) as_)
    ∙ (ap (λ n. last_argument area (k + n + 1) (offsets (k + length a + 1) as_))
          (strlen_at-string k area a (laid_out as_ ++ rest) e' t.0)
        ∙ (last_argument-laid_out as_ (k + length a + 1) area rest
              (drop-laid_out k area a (laid_out as_ ++ rest) e') t.1
            ∙ omega (arith, length-append a (0 ∷ laid_out as_))))

take-string : (a rest : Bytes) (n : ℕ) → n ≡ length a + 1 → take n (a ++ 0 ∷ rest) ≡ a ++ 0 ∷ []
take-string a rest zero e = absurd (omega arith)
take-string [] rest (suc zero) e = refl
take-string [] rest (suc (suc n)) e = absurd (omega arith)
take-string (c ∷ cs) rest (suc n) e = ap (◌∷◌ c) (take-string cs rest n (omega arith))

-- A string at `lastArgv` is copied with its zero byte.
copy_string-next :
    (area a rest heap : Bytes) (k : ℕ) (environ : List Place)
    → drop k area ≡ a ++ 0 ∷ rest
    → IsText a
    → copy_string area k (record { last = k; heap = heap; environ = environ }) ≡ record {
      last = k + length a + 1;
      heap = heap ++ (a ++ 0 ∷ []);
      environ = environ ++ in_heap (length heap) ∷ [];
    }
unfolding copy_string
copy_string-next area a rest heap k environ e t =
    ground (arith, strlen_at-string k area a rest e t, e, take-string a rest (length a + 1) refl)

-- The second loop copies the whole environment.
copy_environ-laid_out :
    (es : List Bytes) (area rest heap : Bytes) (k : ℕ) (environ : List Place)
    → drop k area ≡ laid_out es ++ rest
    → All IsText es
    → copy_environ area (offsets k es) (record { last = k; heap = heap; environ = environ })
      ≡ record {
        last = k + length (laid_out es);
        heap = heap ++ laid_out es;
        environ = environ ++ map in_heap (offsets (length heap) es);
      }
unfolding copy_environ
copy_environ-laid_out [] area rest heap k environ e t =
    ground (arith, append-nil heap, append-nil environ)
copy_environ-laid_out (a ∷ es) area rest heap k environ e t =
    let e' = e ∙ laid_out-cons a es rest in
    let heap' = heap ++ (a ++ 0 ∷ []) in
    ap (copy_environ area (offsets (k + length a + 1) es))
      (copy_string-next area a (laid_out es ++ rest) heap k environ e' t.0)
    ∙ (copy_environ-laid_out es area rest heap' (k + length a + 1)
          (environ ++ in_heap (length heap) ∷ []) (drop-laid_out k area a (laid_out es ++ rest) e')
          t.1
        ∙ ground (
          arith,
          length-append a (0 ∷ laid_out es),
          length-append heap (a ++ 0 ∷ []),
          length-append a (0 ∷ []),
          append_assoc heap (a ++ 0 ∷ []) (laid_out es),
          append_assoc a (0 ∷ []) (laid_out es),
          append_assoc environ (in_heap (length heap) ∷ [])
              (map in_heap (offsets (length heap') es)),
        ))

environ_size-laid_out :
    (es : List Bytes) (area rest : Bytes) (k : ℕ)
    → drop k area ≡ laid_out es ++ rest
    → All IsText es
    → environ_size area (offsets k es) ≡ length (laid_out es)
unfolding environ_size
environ_size-laid_out [] area rest k e t = refl
environ_size-laid_out (a ∷ es) area rest k e t =
    let e' = e ∙ laid_out-cons a es rest in
    omega (
      arith,
      strlen_at-string k area a (laid_out es ++ rest) e' t.0,
      environ_size-laid_out es area rest (k + length a + 1)
          (drop-laid_out k area a (laid_out es ++ rest) e') t.1,
      length-append a (0 ∷ laid_out es),
    )

-- On the block as the system lays it out, the arguments one behind the other and the environment
-- behind them, and if `malloc` gives its memory: the environment is copied whole, each string to the
-- place of its own in the copy, which is filled to its end; and `lastArgv` is the block's last byte.
pub initialize_process_env-laid_out :
    (args es : List Bytes)
    → All IsText args
    → All IsText es
    → let area = laid_out args ++ laid_out es in
      let environ = offsets (length (laid_out args)) es in
      (initialize_process_env true area (offsets 0 args) environ
        ≡ some (record {
          last = length area - 1;
          heap = laid_out es;
          environ = map in_heap (offsets 0 es);
        }))
      × (environ_size area environ ≡ length (laid_out es))
unfolding initialize_process_env
initialize_process_env-laid_out args es ta te =
    let area = laid_out args ++ laid_out es in
    let n = length (laid_out args) in
    let end : drop n area ≡ laid_out es ++ [] =
      drop-append (laid_out args) (laid_out es) ∙ sym (append-nil (laid_out es)) in
    (
      ground (
        arith,
        last_argument-laid_out args 0 area (laid_out es) refl ta,
        copy_environ-laid_out es area [] [] n [] end te,
        length-append (laid_out args) (laid_out es),
      ),
      environ_size-laid_out es area [] n end te,
    )
