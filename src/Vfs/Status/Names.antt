-- ===== src/Vfs/Status/Names.antt =====
-- lib/Basic/VirtualFileSystem.cpp: the names that `Status` gives to files.
use u_lang.Prelude.{
  ◌≡◌, refl, true, false, Bytes, [], ◌∷◌, ◌++◌, ◌&&◌, if◌then◌else◌, ltb, length, arith,
}
use u_lang.Vfs.Status.{starts_with, substr, shorten_mount_point, ends_with_slash, make_virtual_name}

starts_with-append : (xs ys : Bytes) → starts_with (xs ++ ys) xs ≡ true
unfolding starts_with
starts_with-append [] ys = refl
starts_with-append (x ∷ xs) ys = ground (arith, starts_with-append xs ys)

substr-append : (xs ys : Bytes) → substr (xs ++ ys) (length xs) ≡ ys
unfolding substr
substr-append [] ys = refl
substr-append (x ∷ xs) ys = substr-append xs ys

-- The virtual name of a file at `rest` under a mount point that does not end with a slash: a
-- slash and `rest`, if the mount point has at most one byte or `rest` is not longer than it;
-- otherwise, `rest` less as many first bytes as the mount point has.
pub make_virtual_name-append :
    (mount rest : Bytes)
    → ends_with_slash mount ≡ false
    → make_virtual_name (mount ++ (47 ∷ rest)) mount ≡ (
        if ltb 1 (length mount) && ltb (length mount) (length rest)
        then substr rest (length mount)
        else 47 ∷ rest)
unfolding make_virtual_name shorten_mount_point starts_with substr
make_virtual_name-append mount rest h =
    ground (arith, h, starts_with-append mount (47 ∷ rest), substr-append mount (47 ∷ rest))
