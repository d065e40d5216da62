-- ===== src/Version/Tests.antt =====
-- Version 18.3 against the versions 12.2 and 18.5.
use godror.Base.{◌≡◌, refl, ok, err, oracle_client_too_old}
use godror.Version.{VersionInfo, check_client_version_multi}

abbrev early_release : VersionInfo
early_release = record { version_num = 18; release_num = 3 }

early_release_refused :
    check_client_version_multi early_release 12 2 18 5 ≡ err oracle_client_too_old
unfolding check_client_version_multi
early_release_refused = refl

early_release_passes : check_client_version_multi early_release 12 2 18 3 ≡ ok tt
unfolding check_client_version_multi
early_release_passes = refl
