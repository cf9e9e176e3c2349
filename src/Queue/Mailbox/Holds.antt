-- ===== src/Queue/Mailbox/Holds.antt =====
-- The files of a mailbox that is ready, as a map from states and ids to items.
use mathlib.Core.List.{append_cancel_right}
use agentqueue.Prelude.{
  Text, codes, text_eq, text_eq_iff, FilePath, path_eq, path_eq_iff, ◌∷◌, ◌++◌, true, false, ◌&&◌,
  Option, none, some, ◌≡◌, ◌∙◌, refl, arith, Bool-cases, inl, inr,
}
use agentqueue.Data.{State, pending, claimed, done, state_string, Item}
use agentqueue.Fs.{Fs, Node, Content, item, file, is_dir, dir_at, lookup, insert, without}
use agentqueue.Fs.Laws.{NoSlash, lookup-insert, lookup-without}
use agentqueue.Queue.{tmp_dir_name}
use agentqueue.Queue.Once.{file_of}
use agentqueue.Queue.Quiet.{Ready, Ready-AgreeAbove, insert-AgreeAbove, without-AgreeAbove}
use agentqueue.Queue.Mailbox.{Mail, state_eq, set}

-- The file of an item.
abbrev pub item_file : Item → Node
item_file it = file false (item it)

abbrev pub stored : Option Item → Option Node
stored none = none
stored (some it) = some (item_file it)

abbrev pub tmp_of : FilePath → Text → FilePath
tmp_of base id = (id ++ codes ".json.tmp") ∷ tmp_dir_name ∷ base

-- The directories are there, each state holds the files of its items, and the temporary names are
-- not taken by directories.
pub record Holds (base : FilePath) (fs : Fs) (mb : Mail) : Type 0 where
  pub ready : Ready base fs
  pub items :
      (st : State) (id : Text) → NoSlash id → lookup (file_of base st id) fs ≡ stored (mb st id)
  pub no_dirs : (id : Text) → NoSlash id → is_dir (lookup (tmp_of base id) fs) ≡ false

pub stored_no_dir : (v : Option Item) → is_dir (stored v) ≡ false
stored_no_dir none = refl
stored_no_dir (some it) = refl

pub state_dir_there :
    (base : FilePath) (fs : Fs) (st : State)
    → Ready base fs
    → dir_at (state_string st ∷ base) fs ≡ true
unfolding dir_at
state_dir_there base fs pending (c, (p, (l, (d, t)))) = rw p refl
state_dir_there base fs claimed (c, (p, (l, (d, t)))) = rw l refl
state_dir_there base fs done (c, (p, (l, (d, t)))) = rw d refl

pub tmp_dir_there :
    (base : FilePath) (fs : Fs) → Ready base fs → dir_at (tmp_dir_name ∷ base) fs ≡ true
unfolding dir_at
tmp_dir_there base fs (c, (p, (l, (d, (t, _))))) = rw t refl

same_path : (p : FilePath) → path_eq p p ≡ true
same_path p = (path_eq_iff p p).1 refl

text_eq-suffixed : (a b s : Text) → text_eq (a ++ s) (b ++ s) ≡ text_eq a b
text_eq-suffixed a b s = elim (Bool-cases (text_eq a b)) [
  | inl e ↦ ground (arith, e, text_eq_iff a b, text_eq_iff (a ++ s) (b ++ s))
  | inr e ↦
      ground (arith, e, text_eq_iff a b, text_eq_iff (a ++ s) (b ++ s), append_cancel_right a b s)
]

text_eq-state_string :
    (st st' : State) → text_eq (state_string st) (state_string st') ≡ state_eq st st'
unfolding text_eq
text_eq-state_string pending pending = refl
text_eq-state_string pending claimed = refl
text_eq-state_string pending done = refl
text_eq-state_string claimed pending = refl
text_eq-state_string claimed claimed = refl
text_eq-state_string claimed done = refl
text_eq-state_string done pending = refl
text_eq-state_string done claimed = refl
text_eq-state_string done done = refl

-- Two items have one file exactly if they have one state and one id.
pub path_eq-file_of :
    (base : FilePath) (st st' : State) (id id' : Text)
    → path_eq (file_of base st id) (file_of base st' id') ≡ (state_eq st st' && text_eq id id')
unfolding path_eq
path_eq-file_of base st st' id id' =
    rw (text_eq-suffixed id id' (codes ".json"), text_eq-state_string st st', same_path base)
      (ground arith)

pub tmp_not_item :
    (base : FilePath) (st : State) (id id' : Text)
    → path_eq (tmp_of base id) (file_of base st id') ≡ false
unfolding path_eq text_eq
tmp_not_item base pending id id' = ground arith
tmp_not_item base claimed id id' = ground arith
tmp_not_item base done id id' = ground arith

item_not_tmp :
    (base : FilePath) (st : State) (id id' : Text)
    → path_eq (file_of base st id) (tmp_of base id') ≡ false
unfolding path_eq text_eq
item_not_tmp base pending id id' = ground arith
item_not_tmp base claimed id id' = ground arith
item_not_tmp base done id id' = ground arith

module _ (base : FilePath) (fs : Fs) (mb : Mail) (h : Holds base fs mb) where
  pub Holds-insert :
      (st : State) (id : Text) (it : Item)
      → Holds base (insert (file_of base st id) (item_file it) fs) (set st id (some it) mb)
  unfolding set
  Holds-insert st id it = record {
    ready =
        Ready-AgreeAbove base fs _ (insert-AgreeAbove _ (file_of base st id) _ fs (omega arith))
          h.ready;
    items = λ st' id' plain.
        lookup-insert (file_of base st id) (file_of base st' id') (item_file it) fs
        ∙ rw (path_eq-file_of base st st' id id', h.items st' id' plain) (ground arith);
    no_dirs = λ id' plain.
        rw
          (
            lookup-insert (file_of base st id) (tmp_of base id') (item_file it) fs,
            item_not_tmp base st id id',
          )
          (h.no_dirs id' plain);
  }

  pub Holds-without :
      (st : State) (id : Text) → Holds base (without (file_of base st id) fs) (set st id none mb)
  unfolding set
  Holds-without st id = record {
    ready =
        Ready-AgreeAbove base fs _ (without-AgreeAbove _ (file_of base st id) fs (omega arith))
          h.ready;
    items = λ st' id' plain.
        lookup-without (file_of base st id) (file_of base st' id') fs
        ∙ rw (path_eq-file_of base st st' id id', h.items st' id' plain) (ground arith);
    no_dirs = λ id' plain.
        rw (lookup-without (file_of base st id) (tmp_of base id') fs, item_not_tmp base st id id')
          (h.no_dirs id' plain);
  }

  pub Holds-tmp_insert :
      (id : Text) (c : Content) → Holds base (insert (tmp_of base id) (file false c) fs) mb
  Holds-tmp_insert id c = record {
    ready =
        Ready-AgreeAbove base fs _ (insert-AgreeAbove _ (tmp_of base id) _ fs (omega arith))
          h.ready;
    items = λ st' id' plain.
        lookup-insert (tmp_of base id) (file_of base st' id') (file false c) fs
        ∙ rw (tmp_not_item base st' id id') (h.items st' id' plain);
    no_dirs = λ id' plain.
        rw (lookup-insert (tmp_of base id) (tmp_of base id') (file false c) fs)
          (ground (arith, h.no_dirs id' plain));
  }

  pub Holds-tmp_without : (id : Text) → Holds base (without (tmp_of base id) fs) mb
  Holds-tmp_without id = record {
    ready =
        Ready-AgreeAbove base fs _ (without-AgreeAbove _ (tmp_of base id) fs (omega arith)) h.ready;
    items = λ st' id' plain.
        lookup-without (tmp_of base id) (file_of base st' id') fs
        ∙ rw (tmp_not_item base st' id id') (h.items st' id' plain);
    no_dirs = λ id' plain.
        rw (lookup-without (tmp_of base id) (tmp_of base id') fs)
          (ground (arith, h.no_dirs id' plain));
  }
