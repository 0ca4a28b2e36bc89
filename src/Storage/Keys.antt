-- ===== src/Storage/Keys.antt =====
-- key and unkey, which internal/storage/s3.go and internal/storage/gcs.go share.
pub mod Prefix
pub mod Names
use nx_remote_cache.Base.{Text, [], trim_prefix, ◌++◌, ◌∷◌}
use nx_remote_cache.Storage.Path.{join}

unfoldable pub key : Text → Text → Text
key [] hash = hash
key (c ∷ p) hash = join (c ∷ p) hash

-- The prefix that List asks for, which is empty for none.
unfoldable pub list_prefix : Text → Text
list_prefix [] = []
list_prefix (c ∷ p) = (c ∷ p) ++ b'/' ∷ []

unfoldable pub unkey : Text → Text → Text
unfolding list_prefix
unkey [] k = k
unkey (c ∷ p) k = trim_prefix k (list_prefix (c ∷ p))
