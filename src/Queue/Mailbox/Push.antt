-- ===== src/Queue/Mailbox/Push.antt =====
-- `Push` of queue.go against what a mailbox promises.
use agentqueue.Prelude.{
  ℕ, zero, suc, ◌+◌, ◌-◌, ◌/◌, ◌%◌, ◌^◌, Text, codes, ◌==◌, FilePath, path_eq_iff, List, [], ◌∷◌,
  ◌++◌, true, Option, none, some, ◌≡◌, ◌≢◌, ◌∙◌, refl, arith, All-append, Bool-cases, inl, inr,
}
use agentqueue.Data.{pending, Item, ok}
use agentqueue.Item.{new_id, zero_padded, first_digits, last_digits, hex, hex_digit, unix_epoch}
use agentqueue.Fs
use agentqueue.Fs.{Fs, item, file, is_dir, dir_at, lookup, insert, without}
use agentqueue.Fs.Laws.{NoSlash, lookup-insert}
use agentqueue.Io.{World, rename, write_file, pure}
use agentqueue.Queue.{tmp_path, publish, store}
use agentqueue.Queue.Paths.{item_path_lem, tmp_path_lem}
use agentqueue.Queue.Once.{file_of}
use agentqueue.Queue.Quiet.{IsQuiet, with_fs, syscall_quiet, bind_ok, attempt_as}
use agentqueue.Queue.Mailbox.{Mail, put_item}
use agentqueue.Queue.Mailbox.Holds.{
  Holds, Holds-insert, Holds-tmp_insert, Holds-tmp_without, item_file, stored_no_dir,
  state_dir_there, tmp_dir_there, tmp_of, tmp_not_item,
}
use agentqueue.Queue.Mailbox.Refines.{Agrees, rename_file}

digit_plain : (n : ℕ) → b'0' + n ≢ b'/'
digit_plain n e = omega (arith, e)

last_digits-NoSlash : (width n : ℕ) → NoSlash (last_digits width n)
unfolding last_digits
last_digits-NoSlash zero n = tt
last_digits-NoSlash (suc width) n =
    All-append _ (last_digits width (n / 10)) _ (last_digits-NoSlash width (n / 10))
      (digit_plain (n % 10), tt)

first_digits-NoSlash : (fuel n : ℕ) → NoSlash (first_digits fuel n)
unfolding first_digits
first_digits-NoSlash zero n = tt
first_digits-NoSlash (suc fuel) n = elim (Bool-cases (n == 0)) [
  | inl e ↦ rw e tt
  | inr e ↦ rw e (
      All-append _ (first_digits fuel (n / 10)) _ (first_digits-NoSlash fuel (n / 10))
        (digit_plain (n % 10), tt))
]

hex_digit_plain : (d : ℕ) → hex_digit d ≢ b'/'
hex_digit_plain d e = ground (arith, e)

hex-NoSlash : (bytes : List ℕ) → NoSlash (hex bytes)
unfolding hex
hex-NoSlash [] = tt
hex-NoSlash (b ∷ bytes) = (hex_digit_plain (b / 16), (hex_digit_plain (b % 16), hex-NoSlash bytes))

NoSlash-append : (s u : Text) → NoSlash s → NoSlash u → NoSlash (s ++ u)
NoSlash-append s u = All-append (λ c. c ≢ b'/') s u

zero_padded-NoSlash : (width n : ℕ) → NoSlash (zero_padded width n)
unfolding zero_padded
zero_padded-NoSlash width n =
    NoSlash-append (first_digits 64 (n / 10 ^ width)) (last_digits width n)
      (first_digits-NoSlash 64 (n / 10 ^ width)) (last_digits-NoSlash width n)

dash_plain : NoSlash (codes "-")
dash_plain = omega arith

-- An id is one path segment.
pub new_id-NoSlash : (time : ℕ) (random : Option (List ℕ)) → NoSlash (new_id time random)
unfolding new_id
new_id-NoSlash time random =
    let bytes : List ℕ = elim random [
      | none ↦ last_digits 6 (time % 10 ^ 9 % 1000000)
      | some bytes ↦ bytes
    ] in
    let millis = (time - unix_epoch) / 10 ^ 6 in
    NoSlash-append (zero_padded 13 millis ++ codes "-") (hex bytes)
      (NoSlash-append (zero_padded 13 millis) (codes "-") (zero_padded-NoSlash 13 millis)
        dash_plain)
      (hex-NoSlash bytes)

module _ (base : FilePath) (w : World) (mb : Mail) (quiet : IsQuiet w) (h : Holds base w.fs mb)
    (it : Item) (plain : NoSlash it.id) where
  -- The file systems behind the write and behind the rename.
  abbrev written : Fs
  written = insert (tmp_of base it.id) (item_file it) w.fs

  abbrev published_fs : Fs
  published_fs =
      insert (file_of base pending it.id) (item_file it) (without (tmp_of base it.id) written)

  Holds-written : Holds base written mb
  Holds-written = Holds-tmp_insert base w.fs mb h it.id (item it)

  write_tmp : write_file (tmp_path base it.id) (item_file it) w ≡ (ok tt, with_fs w written)
  unfolding write_file Fs.put
  write_tmp = rw (tmp_path_lem base it.id plain) (
      syscall_quiet (λ fs. (Fs.put (tmp_of base it.id) (file true Fs.partial) fs).1)
        (Fs.put (tmp_of base it.id) (item_file it)) w quiet
      ∙ rw (tmp_dir_there base w.fs h.ready, h.no_dirs it.id plain) refl)

  publish-written : publish base it (with_fs w written) ≡ (ok it, with_fs w published_fs)
  unfolding publish rename pure
  publish-written = attempt_as _ _ (with_fs w written) (with_fs w published_fs) (ok tt) (
      rw (tmp_path_lem base it.id plain, item_path_lem base pending it.id plain)
        (syscall_quiet (λ fs. fs) (Fs.rename (tmp_of base it.id) (file_of base pending it.id))
            (with_fs w written) quiet
          ∙ rw
              (rename_file (tmp_of base it.id) (file_of base pending it.id) it written
                (lookup-insert (tmp_of base it.id) (tmp_of base it.id) (item_file it) w.fs
                  ∙ ground (arith, path_eq_iff (tmp_of base it.id) (tmp_of base it.id)))
                (tmp_not_item base pending it.id it.id)
                (state_dir_there base written pending Holds-written.ready)
                (rw (Holds-written.items pending it.id plain) (stored_no_dir (mb pending it.id))))
              refl))

  pub store_refines : Agrees base w (store base it w) (put_item it mb)
  unfolding store put_item
  store_refines =
      let run : store base it w ≡ (ok it, with_fs w published_fs) =
        bind_ok _ _ w (with_fs w written) tt write_tmp ∙ publish-written in
      rw run (
        refl,
        Holds-insert base _ mb (Holds-tmp_without base written mb Holds-written it.id) pending it.id
            it,
        refl,
      )
