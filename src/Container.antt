-- ===== src/Container.antt =====
-- detail/container/data_container_nd.hpp: where `operator[]` of a container points, counted in
-- elements from `get_ptr()`.
pub mod Storage
pub mod Lifetime
pub mod Counts
pub mod Ownership
pub mod Copying
use neo_sycl.Prelude.{ℕ, ◌+◌, ◌*◌, Option, some, ◌>>=◌}
use neo_sycl.SizeT.{wrap}
use neo_sycl.ArrayNd
use neo_sycl.ArrayNd.{ArrayNd}

-- `DataContainerND<T, 1>::operator[]`.
unfoldable pub element_1 : ℕ → ℕ
element_1 x = x

-- `DataContainerND<T, 2>::operator[]`: the start of row `i`.
unfoldable pub row_2 : ArrayNd 2 → ℕ → Option ℕ
row_2 range i = do x ← ArrayNd.at range 0; some (wrap (x * i))

-- `AccessProxyND<T, 3>`.
pub record AccessProxy : Type 0 where
  pub range : ArrayNd 3
  pub base_ptr : ℕ

-- `DataContainerND<T, 3>::operator[]`.
unfoldable pub proxy_3 : ArrayNd 3 → ℕ → Option AccessProxy
proxy_3 range i = do
  x ← ArrayNd.at range 0
  some (record { range = range; base_ptr = wrap (i * x) })

-- `AccessProxyND<T, 3>::operator[]`.
unfoldable pub row_3 : AccessProxy → ℕ → Option ℕ
row_3 proxy i = do y ← ArrayNd.at proxy.range 1; some (proxy.base_ptr + wrap (i * y))

-- `data[i][j]` and `data[i][j][k]`.
unfoldable pub element_2 : ArrayNd 2 → ℕ → ℕ → Option ℕ
unfolding row_2
element_2 range i j = do row ← row_2 range i; some (row + j)

unfoldable pub element_3 : ArrayNd 3 → ℕ → ℕ → ℕ → Option ℕ
unfolding proxy_3 row_3
element_3 range i j k = do proxy ← proxy_3 range i; row ← row_3 proxy j; some (row + k)
