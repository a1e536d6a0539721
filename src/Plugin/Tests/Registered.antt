-- ===== src/Plugin/Tests/Registered.antt =====
-- The registry's theorems on the sample host.
use oksai_cc_api_server.Base.{get, string_eq, ◌≡◌, refl}
use oksai_cc_api_server.Base.Exec.{err}
use oksai_cc_api_server.Plugin.Types.{destroy, hook_failed}
use oksai_cc_api_server.Plugin.Registry.{unregister}
use oksai_cc_api_server.Plugin.Registry.Laws.{unregister_throws}
use oksai_cc_api_server.Plugin.Tests.{noisy, host, audit}

unregister_throws_example :
    ((unregister noisy "audit" host).0 ≡ err (hook_failed (destroy 2)))
    × ((unregister noisy "audit" host).1.registry ≡ host.registry)
unfolding get
unregister_throws_example = unregister_throws noisy "audit" audit host refl refl refl
