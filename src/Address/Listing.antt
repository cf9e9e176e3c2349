-- ===== src/Address/Listing.antt =====
-- The sessions in a working directory: what TargetsByCwd (address.go) returns.
use agentqueue.Prelude.{
  FilePath, Text, text_eq, text_eq_iff, List, [], ◌∷◌, map, Bool, true, false, Bool-cases,
  Option-cases, Option, none, some, All, All-map, ◌≡◌, refl, sym, ◌∙◌, subst, inl, inr,
  if◌then◌else◌, arith,
}
use agentqueue.Prelude.Order.{
  text_le, text_le_total, text_le_trans, IsSorted, sort_by-IsSorted, All-sort_by,
}
use agentqueue.Data.{Target, Address, Result, ok, err, is_not_exist, is_not_found, not_found}
use agentqueue.Fs
use agentqueue.Fs.{Fs, Content, Node, dir, file, address, lookup, join}
use agentqueue.Fs.Laws.{IsSegment, join_segment}
use agentqueue.Io.{Slot, World, Io, move, attempt, pure, raise, lift, read_dir, read_file, ◌>>=◌}
use agentqueue.Io.Rules.{
  Stable, stable_of_moves, Triple, syscall_rule, pure_rule, raise_rule, lift_rule, bind_rule,
  attempt_rule, if_rule,
}
use agentqueue.Config.{Queue}
use agentqueue.Queue.{target_dir}
use agentqueue.Files.{addr_file, get_address, decode_address}
use agentqueue.Notify.{optional}
use agentqueue.Address.{targets_of, matching, indexed, targets_by_cwd, name_le}

addr_IsSegment : IsSegment addr_file
addr_IsSegment = (omega arith, λ e. cc, λ e. cc, λ e. cc)

-- The other processes leave the address files as they are.
abbrev pub LeavesAddresses : Slot → Type 0
LeavesAddresses slot =
    All
      (λ mv.
        (p : FilePath) (fs : Fs) → lookup (addr_file ∷ p) (move fs mv) ≡ lookup (addr_file ∷ p) fs)
      slot.others

module _ (q : Queue) (agent cwd : Text) (table : FilePath → Option Node) where
  -- The address files are those of the table.
  abbrev Holds : Fs → Type 0
  Holds fs = (p : FilePath) → lookup (addr_file ∷ p) fs ≡ table p

  Holds-stable : Stable LeavesAddresses Holds
  Holds-stable slot l fs h p =
      stable_of_moves (λ fs. lookup (addr_file ∷ p) fs ≡ table p) slot.others fs
        (All-map slot.others (λ mv m fs h. m p fs ∙ h) l) (h p)

  -- The address of the mailbox.
  abbrev IsAddress : Target → Address → Type 0
  IsAddress t a =
      (base : FilePath) × (target_dir q t ≡ ok base)
      × ((mode : Bool) × (table base ≡ some (file mode (address a))))

  -- A target of the agent whose address is in the working directory.
  abbrev IsFound : Target → Type 0
  IsFound t = (t.agent ≡ agent) × ((a : Address) × IsAddress t a × (a.cwd ≡ cwd))

  abbrev Found : Result (List Target) → Fs → Type 0
  Found (ok ts) fs = All IsFound ts
  Found (err e) fs = Unit

  -- What a read of the address file finds.
  abbrev Read : FilePath → Result (Bool × Content) → Type 0
  Read base (ok (mode, c)) = table base ≡ some (file mode c)
  Read base (err e) = Unit

  abbrev Got : Target → Result Address → Type 0
  Got t (ok a) = IsAddress t a
  Got t (err e) = Unit

  abbrev MayGot : Target → Result (Option Address) → Type 0
  MayGot t (ok (some a)) = IsAddress t a
  MayGot t (ok none) = Unit
  MayGot t (err e) = Unit

  -- A read finds what the table has, and leaves the files as they are.
  reads :
      (base : FilePath) (v : Option Node) (fs : Fs)
      → lookup (addr_file ∷ base) fs ≡ v
      → table base ≡ v
      → Holds fs
      → Holds (Fs.read_file (addr_file ∷ base) fs).1
        × Read base (Fs.read_file (addr_file ∷ base) fs).0
  unfolding Fs.read_file
  reads base none fs e t h = rw (e, Fs.read_file) (h, tt)
  reads base (some dir) fs e t h = rw (e, Fs.read_file) (h, tt)
  reads base (some (file mode c)) fs e t h = rw (e, Fs.read_file) (h, t)

  lists : (p : FilePath) (fs : Fs) → Holds fs → Holds (Fs.read_dir p fs).1
  unfolding Fs.read_dir
  lists p fs h = elim (Bool-cases (Fs.dir_at p fs)) [
    | inl e ↦ rw e h
    | inr e ↦ elim (Option-cases (lookup p fs)) [ inl k ↦ rw (e, k) h | inr (u, k) ↦ rw (e, k) h ]
  ]

  read_file_rule :
      (base : FilePath)
      → Triple LeavesAddresses Holds (λ r fs. Holds fs × Read base r) (read_file (addr_file ∷ base))
  unfolding read_file
  read_file_rule base =
      syscall_rule (λ fs. fs) (Fs.read_file (addr_file ∷ base)) Holds-stable (λ fs h. (h, tt))
        λ fs h. reads base _ fs refl (sym (h base)) h

  read_dir_rule : (p : FilePath) → Triple LeavesAddresses Holds (λ _ fs. Holds fs) (read_dir p)
  unfolding read_dir
  read_dir_rule p =
      syscall_rule (λ fs. fs) (Fs.read_dir p) Holds-stable (λ fs h. h) λ fs h. lists p fs h

  decoded :
      (t : Target) (base : FilePath) (mode : Bool) (c : Content)
      → target_dir q t ≡ ok base
      → table base ≡ some (file mode c)
      → Got t (decode_address c)
  decoded t base mode (address a) e k = (base, e, (mode, k))
  decoded t base mode c e k = tt

  get_address_rule :
      (t : Target) → Triple LeavesAddresses Holds (λ r fs. Holds fs × Got t r) (get_address q t)
  unfolding get_address
  get_address_rule t =
      bind_rule (λ r fs. Holds fs × (target_dir q t ≡ r)) _ _
        (lift_rule (target_dir q t) λ fs h. (h, refl)) (λ e fs h. (h.0, tt))
        λ base. record { at = λ w l h. (located base h.1).at w l h.0 }
    where
      told :
          (base : FilePath)
          → target_dir q t ≡ ok base
          → (r : Result (Bool × Content))
          → Triple LeavesAddresses
              (λ fs. Holds fs × Read base r)
              (λ x fs. Holds fs × Got t x)
              (elim r [
                | ok (_, content) ↦ lift (decode_address content)
                | err e ↦ raise (if is_not_exist e then not_found else e)
              ])
      told base e (ok (mode, c)) =
          lift_rule (decode_address c) λ fs h. (h.0, decoded t base mode c e h.1)
      told base e (err x) = raise_rule _ λ fs h. (h.0, tt)

      located :
          (base : FilePath)
          → target_dir q t ≡ ok base
          → Triple LeavesAddresses Holds
              (λ x fs. Holds fs × Got t x)
              (attempt (read_file (join base addr_file)) λ r. elim r [
                | ok (_, content) ↦ lift (decode_address content)
                | err e ↦ raise (if is_not_exist e then not_found else e)
              ])
      located base e =
          rw (join_segment base addr_file addr_IsSegment)
            (attempt_rule (λ r fs. Holds fs × Read base r) _ _ (read_file_rule base) (told base e))

  optional_rule :
      (t : Target)
      → Triple LeavesAddresses Holds (λ r fs. Holds fs × MayGot t r) (optional (get_address q t))
  unfolding optional
  optional_rule t = attempt_rule (λ r fs. Holds fs × Got t r) _ _ (get_address_rule t) told
    where
      told :
          (r : Result Address)
          → Triple LeavesAddresses
              (λ fs. Holds fs × Got t r)
              (λ x fs. Holds fs × MayGot t x)
              (elim r [
                | ok a ↦ pure (some a)
                | err e ↦ if is_not_found e then pure none else raise e
              ])
      told (ok a) = pure_rule (some a) λ fs h. h
      told (err e) =
          if_rule (is_not_found e) _ _ (λ k. pure_rule none λ fs h. (h.0, tt))
            λ k. raise_rule e λ fs h. (h.0, tt)

  matching_rule :
      (name : Text) (rest : Io (List Target)) (o : Option Address)
      → Triple LeavesAddresses Holds Found rest
      → Triple LeavesAddresses
          (λ fs. Holds fs × MayGot (record { agent = agent; name = name }) (ok o))
          Found
          (matching cwd (record { agent = agent; name = name }) rest o)
  matching_rule name rest none k = record { at = λ w l h. k.at w l h.0 }
  matching_rule name rest (some a) k = if_rule (text_eq a.cwd cwd) _ _ met other
    where
      met :
          text_eq a.cwd cwd ≡ true
          → Triple LeavesAddresses
              (λ fs. Holds fs × IsAddress (record { agent = agent; name = name }) a)
              Found
              (do ts ← rest; pure (record { agent = agent; name = name } ∷ ts))
      met e = record {
        at = λ w l h.
            let behind : Triple LeavesAddresses Holds Found
                (do ts ← rest; pure (record { agent = agent; name = name } ∷ ts)) =
              bind_rule Found rest _ k (λ e fs _. tt)
                λ ts.
                  pure_rule _ λ fs found. ((refl, (a, h.1, (text_eq_iff a.cwd cwd).0 e)), found) in
            behind.at w l h.0;
      }

      other :
          text_eq a.cwd cwd ≡ false
          → Triple LeavesAddresses
              (λ fs. Holds fs × IsAddress (record { agent = agent; name = name }) a)
              Found
              rest
      other e = record { at = λ w l h. k.at w l h.0 }

  targets_of_rule :
      (entries : List (Text × Bool))
      → Triple LeavesAddresses Holds Found (targets_of q agent cwd entries)
  unfolding targets_of
  targets_of_rule [] = pure_rule [] λ fs _. tt
  targets_of_rule ((name, is_dir) ∷ entries) =
      let rest = targets_of_rule entries in
      if_rule is_dir _ _ (λ _. rest)
        λ _.
          bind_rule _ _ _ (optional_rule (record { agent = agent; name = name })) (λ e fs h. tt)
            λ o. matching_rule name _ o rest

  -- Sorted by name, and found.
  abbrev Listed : Result (List Target) → Fs → Type 0
  Listed (ok ts) fs = IsSorted text_le (map (λ (t : Target). t.name) ts) × All IsFound ts
  Listed (err e) fs = Unit

  names_above :
      (t : Target) (ts : List Target)
      → All (λ u. name_le t u ≡ true) ts
      → All (λ n. text_le t.name n ≡ true) (map (λ (t : Target). t.name) ts)
  names_above t [] h = tt
  names_above t (u ∷ ts) (h, hs) = (h, names_above t ts hs)

  names-IsSorted :
      (ts : List Target) → IsSorted name_le ts → IsSorted text_le (map (λ (t : Target). t.name) ts)
  names-IsSorted [] h = tt
  names-IsSorted (t ∷ ts) (h, hs) = (names_above t ts h, names-IsSorted ts hs)

  indexed_rule :
      (r : Result (List (Text × Bool)))
      → Triple LeavesAddresses Holds Listed (indexed q agent cwd r)
  indexed_rule (err e) =
      if_rule (is_not_exist e) _ _ (λ _. pure_rule [] λ fs _. (tt, tt)) λ _. raise_rule e λ fs _. tt
  indexed_rule (ok entries) =
      bind_rule Found _ _ (targets_of_rule entries) (λ e fs _. tt)
        λ ts. pure_rule _ λ fs h. (
          names-IsSorted _ (
              sort_by-IsSorted name_le (λ a b. text_le_total a.name b.name)
                (λ a b c. text_le_trans a.name b.name c.name) ts),
          All-sort_by name_le IsFound ts h,
        )

  targets_by_cwd_rule : Triple LeavesAddresses Holds Listed (targets_by_cwd q agent cwd)
  unfolding targets_by_cwd
  targets_by_cwd_rule =
      bind_rule (λ _ fs. Holds fs) _ _ (lift_rule _ λ fs h. h) (λ e fs _. tt)
        λ dir. attempt_rule (λ _ fs. Holds fs) (read_dir dir) _ (read_dir_rule dir) indexed_rule

-- The target is one of the agent, and its mailbox has an address file whose working directory is this.
abbrev pub IsRegistered : Queue → Text → Text → Fs → Target → Type 0
IsRegistered q agent cwd fs t =
    (t.agent ≡ agent)
    × ((a : Address) × ((base : FilePath) × (target_dir q t ≡ ok base)
          × ((mode : Bool) × (lookup (addr_file ∷ base) fs ≡ some (file mode (address a)))))
        × (a.cwd ≡ cwd))

-- The sessions in a working directory are sorted by their names, and each is one of the agent that was
-- asked for, whose address file has this working directory, where the other processes leave the address
-- files alone.
pub targets_by_cwd-IsRegistered :
    (q : Queue) (agent cwd : Text) (w : World) (ts : List Target)
    → All LeavesAddresses w.schedule
    → (targets_by_cwd q agent cwd w).0 ≡ ok ts
    → IsSorted text_le (map (λ (t : Target). t.name) ts) × All (IsRegistered q agent cwd w.fs) ts
targets_by_cwd-IsRegistered q agent cwd w ts l e =
    listed _ e
      ((targets_by_cwd_rule q agent cwd (λ p. lookup (addr_file ∷ p) w.fs)).at w l λ p. refl).1
  where
    listed :
        (r : Result (List Target))
        → r ≡ ok ts
        → Listed q agent cwd
            (λ p. lookup (addr_file ∷ p) w.fs)
            r
            (targets_by_cwd q agent cwd w).1.fs
        → IsSorted text_le (map (λ (t : Target). t.name) ts)
          × All (IsRegistered q agent cwd w.fs) ts
    listed (ok xs) e k =
        let same : xs ≡ ts = cc e in
        subst
          (λ (l : List Target).
            IsSorted text_le (map (λ (t : Target). t.name) l)
            × All (IsRegistered q agent cwd w.fs) l)
          same k
    listed (err x) e k = absurd (cc e)
