-- ===== src/Tests/Archives.antt =====
-- The growth of the output buffer at concrete lengths.
use zkclient.Prelude.{◌≡◌, some, arith}
use zkclient.Archive.Growth.{Grown, resize_loop-ends}
use zkclient.Archive.Output.{resize_loop}

resize_loop-ends_example : (g : Grown 128 1000) × (resize_loop 32 128 1000 ≡ some g.size)
resize_loop-ends_example =
    resize_loop-ends 31 128 1000 (omega arith) (omega arith) (omega arith) (omega arith)
