-- ===== src/Tests/Pool.antt =====
-- The pool of clients for one host on a short history.
use httplib.Base.{◌≡◌, refl, true, [], ◌∷◌, codes}
use httplib.Client.Pool.{acquire, release, http_client_pool, make_client}
use httplib.Client.Pool.History.{
  World, acquires, releases, Reach, here, next, opened, IsSound, reached-IsSound,
}

abbrev start_world : World
start_world = opened (codes "example.org") 443 true 1

abbrev after_acquire : World
after_acquire = record {
  state = (acquire start_world.state).0;
  held = (acquire start_world.state).1 ∷ [];
}

abbrev after_release : World
after_release = record {
  state = release after_acquire.state (make_client start_world.state);
  held = [];
}

client_comes_back : after_release.state.pool ≡ make_client start_world.state ∷ []
unfolding acquire release http_client_pool
client_comes_back = refl

history : Reach start_world after_release
unfolding acquire http_client_pool
history =
    next (next here (acquires start_world))
      (releases after_acquire [] [] (make_client start_world.state) refl)

reached-IsSound_example : IsSound after_release
reached-IsSound_example = reached-IsSound (codes "example.org") 443 true 1 history
