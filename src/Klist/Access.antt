-- ===== src/Klist/Access.antt =====
-- Reads and writes through a pointer that is not `NULL`.
use little_os.Base.{ℕ, ◌≡◌, ◌≢◌, update, ==_of_ne}
use little_os.Cmd.{ok}
use little_os.Klist.{Ptr, null, Heap, get_prev, get_next, set_prev, set_next, get_len, set_len}

module _ {p : Ptr} (e : p ≢ null) (h : Heap) where
  pub get_prev-ok : get_prev p h ≡ ok (h.prev p) h
  unfolding get_prev
  get_prev-ok = rw (==_of_ne p null e)

  pub get_next-ok : get_next p h ≡ ok (h.next p) h
  unfolding get_next
  get_next-ok = rw (==_of_ne p null e)

  pub get_len-ok : get_len p h ≡ ok (h.len p) h
  unfolding get_len
  get_len-ok = rw (==_of_ne p null e)

  pub set_prev-ok : (v : Ptr) → set_prev p v h ≡ ok tt (record h { prev = update h.prev p v })
  unfolding set_prev
  set_prev-ok v = rw (==_of_ne p null e)

  pub set_next-ok : (v : Ptr) → set_next p v h ≡ ok tt (record h { next = update h.next p v })
  unfolding set_next
  set_next-ok v = rw (==_of_ne p null e)

  pub set_len-ok : (v : ℕ) → set_len p v h ≡ ok tt (record h { len = update h.len p v })
  unfolding set_len
  set_len-ok v = rw (==_of_ne p null e)
