-- ===== src/Queue/Progress/Waiting.antt =====
-- What keeps an item waiting: making directories, and claims of other ids.
use agentqueue.Prelude.{
  ◌+◌, ◌<◌, Text, FilePath, text_eq, [], ◌∷◌, Bool, false, ◌≡◌, ◌∙◌, refl, arith, All, All-map,
  length,
}
use agentqueue.Data.{Target, State, pending, claimed, state_string, Result, ok, err}
use agentqueue.Fs
use agentqueue.Fs.{
  item, address, receiver, notification, nothing, partial, Fs, Node, Content, file, dir, lookup,
  insert, without, dir_at, is_dir, make_dir, and_then,
}
use agentqueue.Fs.Laws.{NoSlash, IsSegment, lookup-insert}
use agentqueue.Io.Rules.{Triple, Stable, stable_of_moves}
use agentqueue.Config.{Queue}
use agentqueue.Queue.{target_dir, claim}
use agentqueue.Queue.Frame.{lookup-mkdir_all}
use agentqueue.Queue.Quiet.{longer_ne}
use agentqueue.Queue.Kept.Operations.{claim_keeps}
use agentqueue.Queue.Once.{file_of}
use agentqueue.Queue.Mailbox.Holds.{path_eq-file_of}
use agentqueue.Queue.Lasting.Plain.{mkdir_all-AllPlain, rename-AllPlain, file_of-plain}
use agentqueue.Queue.Lasting.Moves.{lookup-rename}
use agentqueue.Queue.Progress.{HasDir, IsWaiting, IsPolite}

module _ (base : FilePath) (id : Text) (mode : Bool) (c : Content) (plain_base : All NoSlash base)
    (plain : NoSlash id) where
  pub IsWaiting-stable : Stable (IsPolite base id) (IsWaiting base id mode c)
  IsWaiting-stable slot q fs h =
      stable_of_moves (IsWaiting base id mode c) slot.others fs
        (All-map slot.others
          (λ mv l fs k. (
            l.names fs k.0,
            λ st. l.same fs st ∙ k.1 st,
            l.dirs fs pending k.2,
            l.dirs fs claimed k.3,
          ))
          q)
        h

  make_dir-HasDir :
      (p : FilePath) (st : State) (fs : Fs) → HasDir base st fs → HasDir base st (make_dir p fs).1
  unfolding make_dir dir_at
  make_dir-HasDir p st fs h = ground (arith, h, lookup-insert p (state_string st ∷ base) dir fs)

  pub mkdir_all-HasDir :
      (p : FilePath) (st : State) (fs : Fs)
      → HasDir base st fs
      → HasDir base st (Fs.mkdir_all p fs).1
  unfolding Fs.mkdir_all
  mkdir_all-HasDir [] st fs h = h
  mkdir_all-HasDir (s ∷ p) st fs h = next (Fs.mkdir_all p fs) (mkdir_all-HasDir p st fs h)
    where
      next :
          (m : Result (Unit {0}) × Fs)
          → HasDir base st m.1
          → HasDir base st (and_then m (make_dir (s ∷ p))).1
      next (ok _, fs') k = make_dir-HasDir (s ∷ p) st fs' k
      next (err e, fs') k = k

  pub IsWaiting-made :
      (sub : Text) (fs : Fs)
      → IsSegment sub
      → IsWaiting base id mode c fs
      → IsWaiting base id mode c (Fs.mkdir_all (sub ∷ base) fs).1
  IsWaiting-made sub fs seg (n, h, d, k) = (
    mkdir_all-AllPlain (sub ∷ base) fs (seg.0, plain_base) n,
    λ st. lookup-mkdir_all (sub ∷ base) (file_of base st id) fs _ (omega arith) refl ∙ h st,
    mkdir_all-HasDir (sub ∷ base) pending fs d,
    mkdir_all-HasDir (sub ∷ base) claimed fs k,
  )

  rename-HasDir :
      (p r : FilePath) (st : State) (fs : Fs)
      → length base + 1 < length p
      → length base + 1 < length r
      → HasDir base st fs
      → HasDir base st (Fs.rename p r fs).1
  unfolding dir_at
  rename-HasDir p r st fs l m h =
      rw
        (lookup-rename p r (state_string st ∷ base) fs
          (longer_ne p (state_string st ∷ base) (omega (arith, l)))
          (longer_ne r (state_string st ∷ base) (omega (arith, m))))
        h

  module _ (q : Queue) (t : Target) (located : target_dir q t ≡ ok base) where
    -- The claim of another id leaves the item waiting.
    pub claim-IsWaiting :
        (id' : Text)
        → NoSlash id'
        → text_eq id' id ≡ false
        → Triple
            (IsPolite base id)
            (IsWaiting base id mode c)
            (λ _ fs. IsWaiting base id mode c fs)
            (claim q t id')
    claim-IsWaiting id' n ne =
        claim_keeps (IsWaiting base id mode c) IsWaiting-stable base IsWaiting-made q t located id'
          n
          λ fs (names, h, d, k). (
            rename-AllPlain _ _ fs (file_of-plain base claimed id' plain_base n) names,
            λ st.
                lookup-rename (file_of base pending id') (file_of base claimed id')
                  (file_of base st id) fs
                  (path_eq-file_of base pending st id' id ∙ rw ne (ground arith))
                  (path_eq-file_of base claimed st id' id ∙ rw ne (ground arith))
                ∙ h st,
            rename-HasDir _ _ pending fs (omega arith) (omega arith) d,
            rename-HasDir _ _ claimed fs (omega arith) (omega arith) k,
          )
