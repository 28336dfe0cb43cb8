-- ===== src/Version/Supported.antt =====
-- What `fromVersion` accepts.
use cuda_tile.Base.{ℕ, ◌≡◌, ◌&&◌, leb, ◌==◌, if◌then◌else◌, none, some, arith}
use cuda_tile.Version.{version, from_version}

-- `fromVersion` accepts major 13 with minor 1 to 4, and any tag.
pub from_version_lem :
    (major minor tag : ℕ)
    → from_version major minor tag ≡ (
        if major == 13 && (leb 1 minor && leb minor 4)
        then some (version major minor tag)
        else none)
unfolding from_version
from_version_lem major minor tag = ground arith
