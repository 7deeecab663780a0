-- ===== src/Klog/Store.antt =====
-- What is left in the files of the access log of src/klog.cc when it is rolled.
use svnsrv.Base.{
  ◌+◌, ◌^◌, ◌≤◌, ◌<◌, true, false, List, [], ◌∷◌, ◌++◌, Option, none, some, ◌≡◌, refl, ◌∙◌, ap,
  length, All, append-nil, if◌then◌else◌, arith,
}
use svnsrv.Base.Run.{Ensures, bind-Ensures}
use svnsrv.Base.Text.{Bytes}
use svnsrv.Files.{update, update_self, update_other}
use svnsrv.Url.{equal}
use svnsrv.Klog.{
  Stream, file, Effect, opens, closes, renames, writes, flushes, Klogger, Rolls, writer_access,
  max_line_number,
}
use svnsrv.Klog.Rolling.{write_all}

abbrev pub Files : Type 0
Files = Bytes → Option Bytes

abbrev existing : Option Bytes → Bytes
existing none = []
existing (some content) = content

-- `rename` puts the file in the place of any other of the new name.
abbrev moved : Bytes → Bytes → Option Bytes → Files → Files
moved a b none files = files
moved a b (some content) files = update (update files b (some content)) a none

-- An effect on the files, with `opens` for a `fopen` with "a+" that succeeds.
abbrev pub apply : Effect → Files → Files
apply (opens name) files = update files name (some (existing (files name)))
apply (closes s) files = files
apply (renames a b) files = if equal a b then files else moved a b (files a) files
apply (writes (file name) text) files = update files name (some (existing (files name) ++ text))
apply (writes s text) files = files
apply (flushes s) files = files

abbrev pub apply_all : List Effect → Files → Files
apply_all [] files = files
apply_all (e ∷ es) files = apply_all es (apply e files)

apply_all-append :
    (es fs : List Effect) (files : Files)
    → apply_all (es ++ fs) files ≡ apply_all fs (apply_all es files)
apply_all-append [] fs files = refl
apply_all-append (e ∷ es) fs files = apply_all-append es fs (apply e files)

equal_sym : (a b : Bytes) → equal a b ≡ equal b a
unfolding equal
equal_sym [] [] = refl
equal_sym [] (y ∷ b) = refl
equal_sym (x ∷ a) [] = refl
equal_sym (x ∷ a) (y ∷ b) = ground (arith, equal_sym a b)

abbrev roll_and_write : Stream → Bytes → Bytes → Bytes → List Effect
roll_and_write s name new text =
    closes s ∷ renames name new ∷ opens name ∷ writes (file name) text ∷ []

module _ (name new other : Bytes) (apart : equal name new ≡ false) (o : equal name other ≡ false)
    (o' : equal new other ≡ false) where
  -- The log holds one text, the rolled file another, and a third file is as it was.
  abbrev pub Holds : Bytes → Bytes → Option Bytes → Files → Type 0
  Holds text old rest files =
      (files name ≡ some text) × (files new ≡ some old) × (files other ≡ rest)

  append_new-Holds :
      (text old : Bytes) (rest : Option Bytes) (files : Files)
      → files name ≡ none
      → files new ≡ some old
      → files other ≡ rest
      → Holds text old rest (apply (writes (file name) text) (apply (opens name) files))
  append_new-Holds text old rest files e f g =
      let made = update files name (some (existing (files name))) in
      let empty : made name ≡ some [] =
        update_self files name (some (existing (files name)))
        ∙ ap (λ content. some (existing content)) e in
      (
        update_self made name (some (existing (made name) ++ text))
            ∙ ap (λ content. some (existing content ++ text)) empty,
        update_other made name new (some (existing (made name) ++ text)) apart
            ∙ (update_other files name new (some (existing (files name))) apart ∙ f),
        update_other made name other (some (existing (made name) ++ text)) o
            ∙ (update_other files name other (some (existing (files name))) o ∙ g),
      )

  roll_and_write-Holds :
      (s : Stream) (text content : Bytes) (files : Files)
      → files name ≡ some content
      → Holds text content (files other) (apply_all (roll_and_write s name new text) files)
  roll_and_write-Holds s text content files e =
      let put = update files new (some content) in
      let renamed : apply (renames name new) files ≡ update put name none = rw (apart, e) refl in
      rw renamed (
        append_new-Holds text content (files other) (update put name none)
          (update_self put name none)
          (update_other put name new none apart ∙ update_self files new (some content))
          (update_other put name other none o ∙ update_other files new other (some content) o'))

  -- The logger past its limit, on the log of this name.
  pub record IsRolling (k : Klogger) : Type 0 where
    pub stream : k.log_access ≡ file name
    pub info : k.info_file ≡ name
    pub full : max_line_number ≤ k.access_counts

  abbrev pub RollsTo : Rolls × Bytes → Type 0
  RollsTo w = (w.0.new_name ≡ new) × (w.0.opened ≡ true)

  -- One line: the log is rolled, and the logger rolls on.
  record Rolled (text : Bytes) (k : Klogger) (r : Klogger × List Effect) : Type 0 where
    rolling : IsRolling r.0
    counted : r.0.access_counts ≡ k.access_counts + 1
    effects : r.1 ≡ roll_and_write (file name) name new text

  writer_access-Rolled :
      (env : Rolls) (text : Bytes) (k : Klogger)
      → RollsTo (env, text)
      → IsRolling k
      → k.access_counts + 1 < 2 ^ 32
      → Ensures (Rolled text k) (writer_access env text k)
  unfolding writer_access
  writer_access-Rolled env text k t i lt = ground arith

  -- The last two of the lines, behind any others.
  abbrev pub LastTwo : Bytes → Bytes → Option Bytes → Files → Klogger × List Effect → Type 0
  LastTwo x y rest files r = Holds y x rest (apply_all r.1 files)

  append-Holds :
      (text old : Bytes) (es fs : List Effect) (files : Files)
      → apply_all es files other ≡ files other
      → Holds text old (apply_all es files other) (apply_all fs (apply_all es files))
      → Holds text old (files other) (apply_all (es ++ fs) files)
  append-Holds text old es fs files e h = rw (apply_all-append es fs files) (h.0, h.1, h.2 ∙ e)

  write_one-Holds :
      (env : Rolls) (text content : Bytes) (k : Klogger) (files : Files)
      → RollsTo (env, text)
      → IsRolling k
      → k.access_counts + 1 < 2 ^ 32
      → files name ≡ some content
      → Ensures
          (λ r. Holds text content (files other) (apply_all r.1 files))
          (write_all ((env, text) ∷ []) k)
  unfolding write_all
  write_one-Holds env text content k files t i lt e =
      bind-Ensures (Rolled text k) _ (writer_access env text k) _
        (writer_access-Rolled env text k t i lt)
        λ r w.
          rw (append-nil r.1, w.effects) (roll_and_write-Holds (file name) text content files e)

  -- On a log that is past its limit, while its files can be opened, the count keeps below 2^32, and
  -- every name that the log is rolled to is the same, as it is within a minute: after any lines and
  -- two more, whatever the files held before, the log holds the last of them, the rolled file holds
  -- the one before it, and a third file is as it was. All other lines are lost.
  pub write_all-LastTwo :
      (before : List (Rolls × Bytes)) (e1 e2 : Rolls) (x y content : Bytes) (k : Klogger)
      (files : Files)
      → All RollsTo (before ++ (e1, x) ∷ (e2, y) ∷ [])
      → IsRolling k
      → k.access_counts + length before + 2 < 2 ^ 32
      → files name ≡ some content
      → Ensures (LastTwo x y (files other) files) (write_all (before ++ (e1, x) ∷ (e2, y) ∷ []) k)
  unfolding write_all
  write_all-LastTwo [] e1 e2 x y content k files t i lt e =
      bind-Ensures (Rolled x k) _ (writer_access e1 x k) _
        (writer_access-Rolled e1 x k t.0 i (omega arith))
        λ r w.
          let f' = apply_all r.1 files in
          let h : Holds x content (files other) f' =
            rw w.effects (roll_and_write-Holds (file name) x content files e) in
          bind-Ensures _ _ (write_all ((e2, y) ∷ []) r.0) _
            (write_one-Holds e2 y x r.0 f' t.1.0 w.rolling (omega (arith, w.counted)) h.0)
            λ q v. append-Holds y x r.1 q.1 files h.2 v
  write_all-LastTwo ((env, text) ∷ before) e1 e2 x y content k files t i lt e =
      bind-Ensures (Rolled text k) _ (writer_access env text k) _
        (writer_access-Rolled env text k t.0 i (omega arith))
        λ r w.
          let f' = apply_all r.1 files in
          let h : Holds text content (files other) f' =
            rw w.effects (roll_and_write-Holds (file name) text content files e) in
          bind-Ensures _ _ (write_all (before ++ (e1, x) ∷ (e2, y) ∷ []) r.0) _
            (write_all-LastTwo before e1 e2 x y text r.0 f' t.1 w.rolling (omega (arith, w.counted))
              h.0)
            λ q v. append-Holds y x r.1 q.1 files h.2 v
