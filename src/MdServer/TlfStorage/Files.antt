-- ===== src/MdServer/TlfStorage/Files.antt =====
-- The files of metadata (`mdPath` of libkbfs/mdserver_tlf_storage.go).
use kbfs.Prelude.{ℕ, Bool, true, false, ◌==◌, ◌≡◌, ◌↔◌, refl, ap, ==_iff}
use kbfs.FileStore.{Eq}

-- `mdPath`: the two parts of the path are the ID's first four characters and the others, so that IDs have
-- different paths.
pub data MdFile : Type 0 where
  md_dir md_file : ℕ → MdFile

abbrev pub same_md_file : MdFile → MdFile → Bool
same_md_file (md_dir a) (md_dir b) = a == b
same_md_file (md_file a) (md_file b) = a == b
same_md_file _ _ = false

same_md_file→eq : (p q : MdFile) → same_md_file p q ≡ true → p ≡ q
same_md_file→eq (md_dir a) (md_dir b) h = ap md_dir ((==_iff a b).0 h)
same_md_file→eq (md_file a) (md_file b) h = ap md_file ((==_iff a b).0 h)
same_md_file→eq _ _ h = cc

same_md_file_refl : (p : MdFile) → same_md_file p p ≡ true
same_md_file_refl (md_dir a) = (==_iff a a).1 refl
same_md_file_refl (md_file a) = (==_iff a a).1 refl

pub same_md_file_iff : (p q : MdFile) → (same_md_file p q ≡ true) ↔ (p ≡ q)
same_md_file_iff p q = (same_md_file→eq p q, λ e. rw (← e) (same_md_file_refl p))

instance abbrev pub md_file_eq : Eq MdFile
md_file_eq = record { beq = same_md_file; beq_iff = same_md_file_iff }
