-- ===== src/Tests/Keys.antt =====
-- internal/storagekey, on the inputs of its test.
use lapis_archive_file_servi.Prelude.{codes, [], ◌≡◌, refl, arith}
use lapis_archive_file_servi.Storagekey.{build, split}
use lapis_archive_file_servi.Storagekey.RoundTrip.{split-build}

several_separators : split (codes "uuid_my_file_v2.txt") ≡ (codes "uuid", codes "my_file_v2.txt")
unfolding split
several_separators = refl

no_separator : split (codes "nofile") ≡ ([], codes "nofile")
unfolding split
no_separator = refl

split-build_example :
    split (build (codes "uuid") (codes "a_b.txt")) ≡ (codes "uuid", codes "a_b.txt")
split-build_example = split-build (codes "uuid") (codes "a_b.txt") (ground arith)
