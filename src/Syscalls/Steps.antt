-- ===== src/Syscalls/Steps.antt =====
-- The steps of a handler, where what they return is known.
use ikan_osv5_student.Prelude.{◌≡◌, ap}
use ikan_osv5_student.Kernel.{Kernel, M, done}
use ikan_osv5_student.Syscalls.{◌>>=◌, System, S, returned, on_kernel}

pub bind-returned :
    {A B : Type 0} (m : S A) (f : A → S B) (s s' : System) (a : A)
    → m s ≡ returned a s'
    → (m >>= f) s ≡ f a s'
bind-returned m f s s' a h = ap (λ x. ((λ t. x) >>= f) s) h

pub on_kernel-done :
    {A : Type 0} (m : M A) (s : System) (a : A) (k : Kernel)
    → m s.kernel ≡ done a k
    → on_kernel m s ≡ returned a (record s { kernel = k })
on_kernel-done m s a k h = ap (λ o. on_kernel (λ k. o) s) h
