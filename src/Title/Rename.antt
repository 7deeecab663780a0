-- ===== src/Title/Rename.antt =====
-- `changeProcessTitle` of src/ProcessTitle.hpp: when the title fits.
use svnsrv.Base.{
  ℕ, zero, suc, ◌+◌, ◌-◌, ◌≤◌, ◌<◌, true, List, [], ◌∷◌, ◌++◌, Option, some, ◌≡◌, refl, ◌∙◌, ap,
  sym, length, take, drop, All, append-nil, append_assoc, length-append, take-append_self, take-all,
  length-take, arith,
}
use mathlib.Core.List.{map}
use svnsrv.Base.Run.{done, crash}
use svnsrv.Base.Text.{Bytes, c_str, c_str-append, laid_out, IsText}
use svnsrv.Title.{
  zeros, in_heap, Copy, initialize_process_env, strncpy, clear_rest, change_process_title, retitled,
  rename_worker,
}
use svnsrv.Title.Layout.{offsets, drop-append, initialize_process_env-laid_out}

length-zeros : (n : ℕ) → length (zeros n) ≡ n
length-zeros zero = refl
length-zeros (suc n) = ap suc (length-zeros n)

zeros-append : (n m k : ℕ) → k ≡ n + m → zeros n ++ zeros m ≡ zeros k
zeros-append zero m k e = ap zeros (omega arith)
zeros-append (suc n) m zero e = absurd (omega arith)
zeros-append (suc n) m (suc k) e = ap (◌∷◌ 0) (zeros-append n m k (omega arith))

c_str-text : (text : Bytes) → IsText text → (n : ℕ) → c_str (text ++ zeros (suc n)) ≡ text
c_str-text text h n = c_str-append text (zeros n) h

drop-at : (n : ℕ) (xs ys : Bytes) → n ≡ length xs → drop n (xs ++ ys) ≡ ys
drop-at n xs ys e = ap (λ k. drop k (xs ++ ys)) e ∙ drop-append xs ys

take-at : (n : ℕ) (xs ys : Bytes) → n ≡ length xs → take n (xs ++ ys) ≡ xs
take-at n xs ys e = ap (λ k. take k (xs ++ ys)) e ∙ take-append_self xs ys

regroup : (title : Bytes) (n m k : ℕ) → k ≡ n + m → title ++ zeros k ≡ (title ++ zeros n) ++ zeros m
regroup title n m k e =
    ap (◌++◌ title) (sym (zeros-append n m k e)) ∙ sym (append_assoc title (zeros n) (zeros m))

-- The block behind a title with room for its zero byte is cleared up to `last`.
clear_rest-fits :
    (title : Bytes) (m last : ℕ)
    → IsText title
    → 0 < m
    → last ≡ length title + m
    → clear_rest (title ++ zeros (suc m)) last ≡ done (title ++ zeros (suc m))
unfolding clear_rest
clear_rest-fits title m last t pos e =
    let stored = title ++ zeros (suc m) in
    let cut : take (length title + 1) stored ≡ title ++ zeros 1 =
      ap (take (length title + 1)) (regroup title 1 m (suc m) (omega arith))
      ∙ take-at (length title + 1) (title ++ zeros 1) (zeros m)
          (omega (arith, length-append title (zeros 1))) in
    let rest : drop last stored ≡ zeros 1 =
      ap (drop last) (regroup title m 1 (suc m) (omega arith))
      ∙ drop-at last (title ++ zeros m) (zeros 1)
          (omega (arith, length-append title (zeros m), length-zeros m)) in
    let whole : (title ++ zeros 1) ++ (zeros (last - (length title + 1)) ++ zeros 1) ≡ stored =
      ap (◌++◌ (title ++ zeros 1)) (zeros-append (last - (length title + 1)) 1 m (omega arith))
      ∙ sym (regroup title 1 m (suc m) (omega arith)) in
    ground (arith, ap length (c_str-text title t m), cut, rest, whole)

stored-fits :
    (body title : Bytes) (last : ℕ)
    → last ≡ length body
    → length title < last
    → strncpy last title ++ drop last (body ++ 0 ∷ []) ≡ title ++ zeros (suc (last - length title))
unfolding strncpy
stored-fits body title last e h =
    let m = last - length title in
    rw (take-all last title (omega arith), drop-at last body (0 ∷ []) e)
      (sym (regroup title m 1 (suc m) (omega arith)))

IsText-take : (n : ℕ) (text : Bytes) → IsText text → IsText (take n text)
IsText-take zero text h = tt
IsText-take (suc n) [] h = tt
IsText-take (suc n) (c ∷ cs) h = (h.0, IsText-take n cs h.1)

clear_rest-overruns :
    (title : Bytes) (last : ℕ)
    → IsText title
    → last ≡ length title
    → clear_rest (title ++ 0 ∷ []) last ≡ crash
unfolding clear_rest
clear_rest-overruns title last t e = ground (arith, ap length (c_str-append title [] t))

stored-overruns :
    (body title : Bytes) (last : ℕ)
    → last ≡ length body
    → last ≤ length title
    → strncpy last title ++ drop last (body ++ 0 ∷ []) ≡ take last title ++ 0 ∷ []
unfolding strncpy
stored-overruns body title last e h =
    let none_left : zeros (last - length title) ≡ [] = ap zeros {y = 0} (omega arith) in
    rw (drop-at last body (0 ∷ []) e, none_left, append-nil (take last title)) refl

change_process_title-fits :
    (body title : Bytes)
    → IsText title
    → length title < length body
    → change_process_title (body ++ 0 ∷ []) (length body) title
      ≡ done (title ++ zeros (suc (length body - length title)))
unfolding change_process_title
change_process_title-fits body title t h =
    let n = length body in
    ap (λ stored. clear_rest stored n) (stored-fits body title n refl h)
    ∙ clear_rest-fits title (n - length title) n t (omega arith) (omega arith)

-- A block that ends with a zero byte at `lastArgv`. A title that leaves room for its zero byte
-- becomes the text at `argv[0]`, and zero bytes fill the rest. A longer one, without a zero byte in
-- it, runs out of the block.
pub change_process_title-room :
    (body title long : Bytes)
    → IsText title
    → IsText long
    → length title < length body
    → length body ≤ length long
    → (change_process_title (body ++ 0 ∷ []) (length body) title
        ≡ done (title ++ zeros (suc (length body - length title))))
      × (change_process_title (body ++ 0 ∷ []) (length body) long ≡ crash)
unfolding change_process_title
change_process_title-room body title long t t' h h' =
    let n = length body in
    (
      change_process_title-fits body title t h,
      ap (λ stored. clear_rest stored n) (stored-overruns body long n refl h')
          ∙ clear_rest-overruns (take n long) n (IsText-take n long t')
              (sym (length-take n long h')),
    )

laid_out-end :
    (a : Bytes) (as_ : List Bytes) → (body : Bytes) × (laid_out (a ∷ as_) ≡ body ++ 0 ∷ [])
laid_out-end a [] = (a, refl)
laid_out-end a (b ∷ as_) =
    let r = laid_out-end b as_ in
    (a ++ 0 ∷ r.0, ap (λ x. a ++ 0 ∷ x) r.1 ∙ sym (append_assoc a (0 ∷ r.0) (0 ∷ [])))

block-end :
    (a : Bytes) (as_ es : List Bytes)
    → (body : Bytes) × (laid_out (a ∷ as_) ++ laid_out es ≡ body ++ 0 ∷ [])
block-end a as_ [] = let r = laid_out-end a as_ in (r.0, append-nil (laid_out (a ∷ as_)) ∙ r.1)
block-end a as_ (e ∷ es) =
    let r = laid_out-end e es in
    (
      laid_out (a ∷ as_) ++ r.0,
      ap (◌++◌ (laid_out (a ∷ as_))) r.1 ∙ sym (append_assoc (laid_out (a ∷ as_)) r.0 (0 ∷ [])),
    )

retitled-fits :
    (area body title : Bytes) (o : Option Copy) (c : Copy)
    → o ≡ some c
    → area ≡ body ++ 0 ∷ []
    → c.last ≡ length body
    → IsText title
    → length title < length body
    → retitled area title o ≡ done (title ++ zeros (suc (length body - length title)), c)
unfolding retitled
retitled-fits area body title o c i e l t h =
    rw (i, l, e, change_process_title-fits body title t h) refl

-- A worker whose `malloc` gives its memory and whose title is shorter by two bytes than the block
-- that holds its arguments, one at least, and its environment: the title is the text at `argv[0]`,
-- zero bytes fill the rest of the block, and the environment is the copy, of which each string has
-- kept its bytes.
pub rename_worker-copied :
    (a : Bytes) (as_ es : List Bytes) (title : Bytes)
    → All IsText (a ∷ as_)
    → All IsText es
    → IsText title
    → length title + 1 < length (laid_out (a ∷ as_) ++ laid_out es)
    → let area = laid_out (a ∷ as_) ++ laid_out es in
      rename_worker true area (offsets 0 (a ∷ as_)) (offsets (length (laid_out (a ∷ as_))) es) title
      ≡ done (
        title ++ zeros (length area - length title),
        record { last = length area - 1; heap = laid_out es; environ = map in_heap (offsets 0 es) },
      )
unfolding rename_worker
rename_worker-copied a as_ es title ta te t h =
    let area = laid_out (a ∷ as_) ++ laid_out es in
    let b = block-end a as_ es in
    let n : length area ≡ length b.0 + 1 = ap length b.1 ∙ length-append b.0 (0 ∷ []) in
    let c : Copy = record {
      last = length area - 1;
      heap = laid_out es;
      environ = map in_heap (offsets 0 es);
    } in
    retitled-fits area b.0 title
      (initialize_process_env true area (offsets 0 (a ∷ as_))
        (offsets (length (laid_out (a ∷ as_))) es))
      c (initialize_process_env-laid_out (a ∷ as_) es ta te).0 b.1 (omega arith) t (omega arith)
    ∙ ap (λ k. done (title ++ zeros k, c)) {x = suc (length b.0 - length title)} (omega arith)
