-- ===== src/Srch/Order.antt =====
-- The order of the entries of a search file.
use scoutfs_kmod_dev.Base.{ℕ, ◌+◌, ◌*◌, ◌^◌, ◌≡◌, compare, refl}
use scoutfs_kmod_dev.Key.Order.{digit64, or_else_assoc, scoutfs_cmp-compare}
use scoutfs_kmod_dev.Srch.{SrchEntry, sre_cmp}
use scoutfs_kmod_dev.Srch.Encode.{IsEntry}

-- The fields, the hash first, as one number.
abbrev pub entry_rank : SrchEntry → ℕ
entry_rank e = (e.hash * 2 ^ 64 + e.ino) * 2 ^ 64 + e.id

-- On entries whose fields are words, sre_cmp compares the numbers that the fields spell, the hash
-- first.
pub sre_cmp-rank :
    (a b : SrchEntry) → IsEntry a → IsEntry b → sre_cmp a b ≡ compare (entry_rank a) (entry_rank b)
unfolding sre_cmp
sre_cmp-rank a b h k =
    simp (scoutfs_cmp-compare, or_else_assoc)
      (rw
        (
          digit64 a.hash b.hash a.ino b.ino h.ino_fits k.ino_fits,
          digit64 (a.hash * 2 ^ 64 + a.ino) (b.hash * 2 ^ 64 + b.ino) a.id b.id h.id_fits k.id_fits,
        )
        refl)
